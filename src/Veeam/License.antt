-- ===== src/Veeam/License.antt =====
-- What a license file is sent as (internal/veeam/veeam.go, `encodeLicensePayload` and
-- `InstallLicense`).
use autodeploy_web.Base.{
  [], ◌∷◌, none, some, Text, text, is_empty, has_prefix, if◌then◌else◌, ◌==◌, ◌||◌,
}
use autodeploy_web.Base.Trim.{trim_space}
use autodeploy_web.Veeam.{string, Config, Answer, ok, err, Outside, Client, Result, do_request}
use autodeploy_web.Veeam.Calls.{InstalledLicense, Library, entries}

abbrev pub byte_order_mark : Text
byte_order_mark = 239 ∷ 187 ∷ 191 ∷ []

-- `TrimPrefix(s, utf8BOM)`.
unfoldable pub without_mark : Text → Text
without_mark (a ∷ b ∷ c ∷ s) =
    if has_prefix byte_order_mark (a ∷ b ∷ c ∷ []) then s else a ∷ b ∷ c ∷ s
without_mark s = s

-- The white space that `strings.Map` drops.
unfoldable pub compact : Text → Text
compact [] = []
compact (c ∷ s) =
    let rest = compact s in if c == 10 || c == 13 || c == 32 || c == 9 then rest else c ∷ rest

module _ (cfg : Config) (world : Outside) (lib : Library) where
  -- The loop over the two encodings, and the last resort.
  unfoldable pub encode_decoded : Text → Text
  unfolding compact without_mark
  encode_decoded s = elim (lib.decode_base64 (compact s)) [
    | some xml ↦ lib.encode_base64 (without_mark xml)
    | none ↦ elim (lib.decode_raw_base64 (compact s)) [
      | some xml ↦ lib.encode_base64 (without_mark xml)
      | none ↦ lib.encode_base64 s
    ]
  ]

  -- `encodeLicensePayload`.
  unfoldable pub encode_license_payload : Text → Answer Text
  unfolding without_mark encode_decoded
  encode_license_payload bytes =
      let s = trim_space (without_mark bytes) in
      if is_empty s
      then err (text "veeam: empty license file")
      else if has_prefix (text "<") s
      then ok (lib.encode_base64 s)
      else ok (encode_decoded s)

  -- `InstallLicense`.
  unfoldable pub install_license : Text → Client → Result InstalledLicense
  unfolding encode_license_payload
  install_license bytes c = elim (encode_license_payload bytes) [
    | err e ↦ (err e, c)
    | ok payload ↦
        do_request cfg world (text "POST") (text "/api/v1/license/install")
          (entries ((text "license", string payload) ∷ [])) lib.decode_license c
  ]
