-- ===== src/Job/Naming.antt =====
-- The name of the ISO that a job writes, and the path of its configuration (`Submit` of
-- internal/job/manager.go).
use autodeploy_web.Base
use autodeploy_web.Base.{
  ℕ, ◌+◌, ◌-◌, Bool, true, false, List, [], ◌∷◌, ◌++◌, Text, text, is_empty, leb, ◌==◌,
  if◌then◌else◌, ◌&&◌, ◌||◌, not, length, take,
}
use mathlib.Core.List.{reverse}
use autodeploy_web.Base.Trim.{trim_space}
use autodeploy_web.Config.Schema.{Config}

-- The loop of `filepath.Ext`, on the bytes from the end, with those already passed.
ext_from : Text → Text → Text
ext_from passed [] = []
ext_from passed (c ∷ before) =
    let rest = ext_from (c ∷ passed) before in
    if c == 47 then [] else if c == 46 then c ∷ passed else rest

-- `filepath.Ext`: from the last dot of the last element of the path, or nothing.
unfoldable pub ext : Text → Text
unfolding ext_from
ext path = ext_from [] (reverse path)

-- Simple case folding: ASCII letters, the long s (U+017F) and the Kelvin sign (U+212A). It is
-- `strings.EqualFold`'s when one of the two texts is ASCII.
fold_ascii : ℕ → ℕ
fold_ascii c = if leb 65 c && leb c 90 then c + 32 else c

fold : Text → Text
unfolding fold_ascii
fold [] = []
fold (a ∷ []) = fold_ascii a ∷ []
fold (a ∷ b ∷ []) =
    let rest = fold (b ∷ []) in if a == 0xc5 && b == 0xbf then 115 ∷ [] else fold_ascii a ∷ rest
fold (a ∷ b ∷ c ∷ s) =
    let rest = fold (b ∷ c ∷ s) in
    let pair = fold (c ∷ s) in
    let triple = fold s in
    if a == 0xc5 && b == 0xbf
    then 115 ∷ pair
    else if a == 0xe2 && b == 0x84 && c == 0xaa
    then 107 ∷ triple
    else fold_ascii a ∷ rest

unfoldable pub equal_fold : Text → Text → Bool
unfolding fold
equal_fold s t = Base.text_eq (fold s) (fold t)

-- The switch on the host name and the appliance type.
unfoldable pub base_name : Text → Text → Text
unfolding equal_fold
base_name name kind =
    if not (is_empty name) && (not (is_empty kind) && not (equal_fold name kind))
    then name ++ text "-" ++ kind
    else if is_empty name
    then kind
    else name

unfoldable pub output_name : Config → Text
unfolding ext base_name
output_name c =
    let found = ext c.source_iso in
    let suffix = if is_empty found then text ".iso" else found in
    let name = base_name (trim_space c.hostname) c.appliance_type in
    let fallback = take (length c.source_iso - length found) c.source_iso ++ text "_customized" in
    if is_empty c.output_iso
    then (if is_empty name then fallback else name) ++ suffix
    else c.output_iso

-- `filepath.Join(DataDir, "configs", ".jobs")`, for a clean DataDir, and the file's name.
unfoldable pub config_path : Text → Text → Text
config_path data_dir id = data_dir ++ text "/configs/.jobs/" ++ id ++ text ".json"
