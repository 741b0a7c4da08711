-- ===== src/Commands/Client/Files.antt =====
-- writeFileAtomic of cmd/corenet/connect.go, over the files that it can touch. What each call of the operating
-- system gives is an argument.
use corenet.Common.{ℕ, Text, List, [], ◌∷◌, ◌++◌, Option, none, some, Map, put, delete, take}

-- A file, with its permissions.
pub record File : Type 0 where
  pub content : Text
  pub mode : ℕ

abbrev pub Files : Type 0
Files = Map File

-- What the calls give: none where one succeeds. `temporary` is the name that os.CreateTemp chooses, and a
-- failing write has written `written` bytes.
pub record WriteCalls : Type 0 where
  pub temporary : Text
  pub make_directory : Option Text
  pub create : Option Text
  pub write : Option Text
  pub written : ℕ
  pub close : Option Text
  pub chmod : Option Text
  pub rename : Option Text

-- The files after each call that changes them, and the error.
pub record Written : Type 0 where
  pub states : List Files
  pub error : Option Text

-- The end of the function, at which the temporary file is removed.
abbrev pub give_up : Text → Files → List Files → Text → Written
give_up temporary files states e = record {
  states = states ++ delete files temporary ∷ [];
  error = some e;
}

-- `writeFileAtomic`; a temporary file is made with the mode 0600.
unfoldable pub write_file_atomic : WriteCalls → Text → Text → ℕ → Files → Written
unfolding put delete
write_file_atomic c path content mode files =
    let made : Files = put files c.temporary (record { content = []; mode = 384 }) in
    let part : Files =
      put made c.temporary (record { content = take c.written content; mode = 384 }) in
    let full : Files = put made c.temporary (record { content = content; mode = 384 }) in
    let ready : Files = put full c.temporary (record { content = content; mode = mode }) in
    let renamed : Files =
      put (delete ready c.temporary) path (record { content = content; mode = mode }) in
    elim c.make_directory [
      | some e ↦ record { states = []; error = some e }
      | none ↦ elim c.create [
        | some e ↦ record { states = []; error = some e }
        | none ↦ elim c.write [
          | some e ↦ give_up c.temporary part (made ∷ part ∷ []) e
          | none ↦ elim c.close [
            | some e ↦ give_up c.temporary full (made ∷ full ∷ []) e
            | none ↦ elim c.chmod [
              | some e ↦ give_up c.temporary full (made ∷ full ∷ []) e
              | none ↦ elim c.rename [
                | some e ↦ give_up c.temporary ready (made ∷ full ∷ ready ∷ []) e
                | none ↦ record {
                  states = made ∷ full ∷ ready ∷ renamed ∷ delete renamed c.temporary ∷ [];
                  error = none;
                }
              ]
            ]
          ]
        ]
      ]
    ]

-- The files as they are left.
abbrev pub last_files : Files → List Files → Files
last_files files [] = files
last_files files (state ∷ states) = last_files state states
