-- ===== src/Presets.antt =====
-- The stores of named JSON files: config.Store (internal/config/store.go) and deploy.PresetStore
-- (internal/deploy/presets.go), one code for two types of values. The directory is the list of its
-- entries; the encoding of encoding/json is a parameter.
pub mod Names
pub mod Reload
use autodeploy_web.Base.{
  ℕ, Bool, true, false, not, List, [], ◌∷◌, ◌++◌, map, Option, none, some, Text, text, text_eq,
  is_empty, ltb, ◌==◌, ◌&&◌, ◌||◌, if◌then◌else◌, length, take, keep_if, ◌-◌,
}
use autodeploy_web.Base.Registry.{lookup, put, remove}
use autodeploy_web.Config.Regex.{matches}
use autodeploy_web.Config.Patterns.{name_re}
use autodeploy_web.Job.Naming.{ext}

pub data Kind : Type 0 where
  file : (contents : Text) (modified : ℕ) → Kind
  folder : (is_empty : Bool) → Kind

pub record Entry : Type 0 where
  pub name : Text
  pub kind : Kind

abbrev pub entry_name : Entry → Text
entry_name e = e.name

abbrev pub Folder : Type 0
Folder = List Entry

pub data Failure : Type 0 where
  invalid_name missing is_folder not_empty bad_json : Failure

pub data Result (A : Type 0) : Type 0 where
  done : A → Result A
  failed : Failure → Result A

-- The file's name below the directory.
unfoldable pub path : Text → Option Text
path name = if matches name_re name then some (name ++ text ".json") else none

-- `os.WriteFile`: an entry is created or overwritten, unless it is a directory.
unfoldable pub write_file : Text → Text → ℕ → Folder → Result Folder
write_file name contents now d = elim (lookup entry_name name d) [
  | none ↦ done (put entry_name (record { name = name; kind = file contents now }) d)
  | some e ↦ elim e.kind [
    | file _ _ ↦ done (put entry_name (record { name = name; kind = file contents now }) d)
    | folder _ ↦ failed is_folder
  ]
]

-- `os.Rename` of a file: the target is replaced, unless it is a directory.
unfoldable pub rename : Text → Text → Folder → Result Folder
rename old target d = elim (lookup entry_name old d) [
  | none ↦ failed missing
  | some e ↦ elim (lookup entry_name target d) [
    | none ↦ done (put entry_name (record e { name = target }) (remove entry_name old d))
    | some t ↦ elim t.kind [
      | file _ _ ↦ done (put entry_name (record e { name = target }) (remove entry_name old d))
      | folder _ ↦ failed is_folder
    ]
  ]
]

unfoldable pub read_file : Text → Folder → Result Text
read_file name d = elim (lookup entry_name name d) [
  | none ↦ failed missing
  | some e ↦ elim e.kind [ file contents _ ↦ done contents | folder _ ↦ failed is_folder ]
]

-- `os.Remove`: a file or an empty directory.
unfoldable pub remove_entry : Text → Folder → Result Folder
remove_entry name d = elim (lookup entry_name name d) [
  | none ↦ failed missing
  | some e ↦ elim e.kind [
    | file _ _ ↦ done (remove entry_name name d)
    | folder bare ↦ if bare then done (remove entry_name name d) else failed not_empty
  ]
]

module _ {V : Type 0} (encode : V → Text) (decode : V → Text → Option V) where
  -- `Save`, at a time: the directory after it too, since a failed rename leaves the other file.
  unfoldable pub save : Text → V → ℕ → Folder → Folder × Option Failure
  save name v now d = elim (path name) [
    | none ↦ (d, some invalid_name)
    | some p ↦ elim (write_file (p ++ text ".tmp") (encode v) now d) [
      | failed e ↦ (d, some e)
      | done d1 ↦ elim (rename (p ++ text ".tmp") p d1) [
        | failed e ↦ (d1, some e)
        | done d2 ↦ (d2, none)
      ]
    ]
  ]

  -- `Load`, into a value that stands for the keys that the file lacks.
  unfoldable pub load : V → Text → Folder → Result V
  load base name d = elim (path name) [
    | none ↦ failed invalid_name
    | some p ↦ elim (read_file p d) [
      | failed e ↦ failed e
      | done b ↦ elim (decode base b) [ none ↦ failed bad_json | some v ↦ done v ]
    ]
  ]

-- `Delete`.
unfoldable pub delete : Text → Folder → Result Folder
delete name d = elim (path name) [ none ↦ failed invalid_name | some p ↦ remove_entry p d ]

-- The order of Go strings.
unfoldable pub text_lt : Text → Text → Bool
text_lt s [] = false
text_lt [] (b ∷ t) = true
text_lt (a ∷ s) (b ∷ t) = ltb a b || (a == b && text_lt s t)

pub record PresetInfo : Type 0 where
  pub name : Text
  pub size : ℕ
  pub updated_at : ℕ

abbrev info_of : Text → Kind → List PresetInfo
info_of name (folder _) = []
info_of name (file contents modified) =
    if text_eq (ext name) (text ".json")
    then record {
      name = take (length name - 5) name;
      size = length contents;
      updated_at = modified;
    }
      ∷ []
    else []

unfoldable pub infos : Folder → List PresetInfo
infos [] = []
infos (e ∷ d) = info_of e.name e.kind ++ infos d

unfoldable pub insert_info : PresetInfo → List PresetInfo → List PresetInfo
insert_info a [] = a ∷ []
insert_info a (x ∷ xs) = if text_lt x.name a.name then x ∷ insert_info a xs else a ∷ x ∷ xs

unfoldable pub sort_infos : List PresetInfo → List PresetInfo
sort_infos [] = []
sort_infos (x ∷ xs) = insert_info x (sort_infos xs)

-- `List`, of a directory that is there.
unfoldable pub list : Folder → List PresetInfo
list d = sort_infos (infos d)
