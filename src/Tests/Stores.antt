-- ===== src/Tests/Stores.antt =====
-- The stores of presets and of deployments at concrete inputs (internal/config/store.go,
-- internal/deploy/presets.go, internal/deploy/store.go).
use autodeploy_web.Base.{
  ℕ, ◌≤◌, ◌≡◌, ◌≢◌, refl, true, false, [], ◌∷◌, ◌++◌, Option, none, some, Text, text, any, length,
  pos, ◌==◌, any,
}
use autodeploy_web.Base.Registry.{lookup}
use autodeploy_web.Config.Regex.{matches, match_then}
use autodeploy_web.Config.Patterns.{name_re, is_name_byte, is_alnum, is_lower, is_upper, is_digit}
use autodeploy_web.Deploy.Run.{running}
use autodeploy_web.Deploy.Manager.{
  retry_spec, retry_wire_spec, delete, Refusal, refused, kept, still_running,
}
use autodeploy_web.Deploy.Store.{Codec, PersistedDeployment, load_from_store, save}
use autodeploy_web.Deploy.Store.Restart.{restart_refuses}
use autodeploy_web.Presets
use autodeploy_web.Presets.{path, load, Folder, entry_name, PresetInfo}
use autodeploy_web.Presets.Names.{path-inside}
use autodeploy_web.Presets.Reload.{save-load}

-- Values that are texts, written as they are.
abbrev plain : Text → Text
plain v = v

abbrev unplain : Text → Text → Option Text
unplain base b = some b

path_lab : path (text "lab 1") ≡ some (text "lab 1.json")
unfolding path matches match_then name_re is_name_byte is_alnum is_lower is_upper is_digit text
path_lab = refl

path-inside_example :
    (text "lab 1.json" ≡ text "lab 1" ++ text ".json")
    × (1 ≤ length (text "lab 1"))
    × (length (text "lab 1") ≤ 64)
    × (any (λ c. c == 47) (text "lab 1.json") ≡ false)
path-inside_example = path-inside (text "lab 1") (text "lab 1.json") path_lab

save-load_example :
    ((Presets.save plain unplain (text "lab 1") (text "v") 5 []).1 ≡ none)
    × (load plain unplain []
          (text "lab 1")
          (Presets.save plain unplain (text "lab 1") (text "v") 5 []).0
        ≡ Presets.Result.done (text "v"))
unfolding lookup
save-load_example =
    save-load plain unplain [] (text "v") (text "lab 1") (text "lab 1.json") 5 [] refl path_lab tt
      tt

-- Columns that hold one value of each type.
abbrev codec : Codec ℕ
codec = record {
  encode_nodes = λ _. text "[]";
  decode_nodes = λ _. some [];
  encode_form = λ n. n ∷ [];
  decode_form = λ s. elim s [ [] ↦ none | n ∷ _ ↦ some n ];
  encode_lines = λ _. text "[]";
  decode_lines = λ _. some [];
}

abbrev stored : PersistedDeployment ℕ
stored = record {
  view = record {
    id = text "d1";
    kind = text "vsa";
    state = running;
    nodes = [];
    created_at = 0;
    finished_at = 0;
    error = [];
    has_wirer = true;
    form = 7;
    retried_from = [];
  };
  lines = [];
}

restart_refuses_example :
    (retry_spec
        (text "d1")
        (load_from_store codec 9 (text "10:00:00") (save codec stored [])).manager
      ≡ none)
    × ((r : Refusal) × (retry_wire_spec
            (text "d1")
            (pos 0)
            (load_from_store codec 9 (text "10:00:00") (save codec stored [])).manager
          ≡ refused r))
    × ((store_error : Option Text)
        → delete store_error
            (text "d1")
            (load_from_store codec 9 (text "10:00:00") (save codec stored [])).manager
          ≢ kept still_running)
restart_refuses_example =
    restart_refuses codec 9 (text "10:00:00") (save codec stored []) (text "d1") (pos 0)
