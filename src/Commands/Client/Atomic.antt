-- ===== src/Commands/Client/Atomic.antt =====
-- writeFileAtomic of cmd/corenet/connect.go writes a file whole or not at all.
use corenet.Common.{Text, ◌≡◌, ◌≢◌, ◌⊎◌, none, some, All, get, put, delete}
use corenet.Commands.Client.Files.{File, Files, Written, last_files}

-- The file at a path is as it was, or it is the new one.
abbrev pub IsWhole : Text → File → Files → Files → Type 0
IsWhole path file before state = (get state path ≡ get before path) ⊎ (get state path ≡ some file)

-- What a write of a file leaves: in every state the file is whole; in the end it is the new one exactly if
-- there was no error; and every other file is as it was.
pub record IsAtomic (path : Text) (file : File) (before : Files) (w : Written) : Type 0 where
  pub whole : All (IsWhole path file before) w.states
  pub result :
      get (last_files before w.states) path
      ≡ elim w.error [ none ↦ some file | some e ↦ get before path ]
  pub others : (p : Text) → p ≢ path → get (last_files before w.states) p ≡ get before p

module _ (temporary path : Text) (files : Files) (apart : temporary ≢ path)
    (free : get files temporary ≡ none) where
  -- A state in which only the temporary file differs.
  abbrev IsAside : Files → Type 0
  IsAside state = (p : Text) → p ≢ temporary → get state p ≡ get files p

  -- The temporary file moved into place.
  renamed : File → Files → Files
  unfolding put delete
  renamed file ready = put (delete ready temporary) path file
