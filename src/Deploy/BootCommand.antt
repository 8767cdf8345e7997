-- ===== src/Deploy/BootCommand.antt =====
-- internal/deploy/bootcmd.go: the GRUB command of the remote kickstart, and the keys that type it.
pub mod Typing
use autodeploy_web.Base.{
  ℕ, ◌+◌, Bool, List, [], ◌∷◌, ◌++◌, Option, none, some, Text, text, is_empty, has_prefix, leb,
  ◌==◌, if◌then◌else◌, ◌&&◌, ◌||◌,
}
use autodeploy_web.Base.Trim.{trim_space}

unfoldable pub ip_kernel_arg : Text → Text → Text → Text → Text
ip_kernel_arg ip gateway netmask hostname =
    if is_empty ip
    then text "ip=dhcp"
    else text "ip="
      ++ ip
      ++ text "::"
      ++ gateway
      ++ text ":"
      ++ netmask
      ++ text ":"
      ++ hostname
      ++ text "::none"

unfoldable pub linux_line : Text → Text → Text → Bool → Text
linux_line role ks_url ip_arg single_disk =
    if has_prefix (text "VSA") role
    then text "linuxefi /images/pxeboot/vmlinuz inst.stage2=hd:LABEL="
      ++ text "VeeamSA"
      ++ text " fips=1 inst.ks="
      ++ ks_url
      ++ text " "
      ++ ip_arg
      ++ text " quiet inst.assumeyes"
    else text "linuxefi /images/pxeboot/vmlinuz inst.stage2=hd:LABEL="
      ++ text "VeeamJeOS"
      ++ text " inst.ks="
      ++ ks_url
      ++ (if single_disk then text " inst.vsingledisk" else [])
      ++ text " "
      ++ ip_arg
      ++ text " quiet inst.assumeyes"

unfoldable pub boot_lines : Text → Text → Text → Bool → List Text
unfolding linux_line
boot_lines role ks_url ip_arg single_disk =
    linux_line role ks_url ip_arg single_disk
    ∷ text "initrdefi /images/pxeboot/initrd.img"
    ∷ text "boot"
    ∷ []

-- `strings.Join(lines, "\n")`.
unfoldable pub join_lines : List Text → Text
join_lines [] = []
join_lines (l ∷ []) = l
join_lines (l ∷ k ∷ ls) = l ++ 10 ∷ join_lines (k ∷ ls)

unfoldable pub boot_command_text : Text → Text → Text → Bool → Text
unfolding join_lines boot_lines
boot_command_text role ks_url ip_arg single_disk =
    join_lines (boot_lines role ks_url ip_arg single_disk)

-- `strings.Split(text, "\n")`: never empty.
unfoldable pub split_lines : Text → Text × List Text
split_lines [] = ([], [])
split_lines (c ∷ s) = let (l, ls) = split_lines s in if c == 10 then ([], l ∷ ls) else (c ∷ l, ls)

-- `keyNames`.
unfoldable pub key_name : ℕ → Option Text
key_name c =
    if c == b' '
    then some (text "spc")
    else if c == b'/'
    then some (text "slash")
    else if c == b'.'
    then some (text "dot")
    else if c == b','
    then some (text "comma")
    else if c == b';'
    then some (text "semicolon")
    else if c == b':'
    then some (text "shift-semicolon")
    else if c == b'='
    then some (text "equal")
    else if c == b'-'
    then some (text "minus")
    else if c == b'_'
    then some (text "shift-minus")
    else if c == b'+'
    then some (text "shift-equal")
    else if c == b'?'
    then some (text "shift-slash")
    else if c == b'&'
    then some (text "shift-7")
    else if c == b'%'
    then some (text "shift-5")
    else if c == b'#'
    then some (text "shift-3")
    else if c == b'('
    then some (text "shift-9")
    else if c == b')'
    then some (text "shift-0")
    else if c == b'~'
    then some (text "shift-grave_accent")
    else if c == 39
    then some (text "apostrophe")
    else if c == 34
    then some (text "shift-apostrophe")
    else none

-- The keys of one character: a lower-case letter or a digit is its own, an upper-case letter takes
-- shift, and one without a name has none. The bytes of a character above ASCII have none either.
unfoldable pub key_of : ℕ → List Text
unfolding key_name
key_of c =
    if (leb b'a' c && leb c b'z') || (leb b'0' c && leb c b'9')
    then (c ∷ []) ∷ []
    else if leb b'A' c && leb c b'Z'
    then (text "shift-" ++ (c + 32) ∷ []) ∷ []
    else elim (key_name c) [ none ↦ [] | some k ↦ k ∷ [] ]

unfoldable pub keys_for_text : Text → List Text
unfolding key_of
keys_for_text [] = []
keys_for_text (c ∷ s) = key_of c ++ keys_for_text s

unfoldable pub line_keys : List Text → List Text
unfolding keys_for_text
line_keys [] = []
line_keys (l ∷ ls) =
    let rest = line_keys ls in
    let t = trim_space l in if is_empty t then rest else keys_for_text t ++ text "ret" ∷ rest

unfoldable pub boot_keys_from_lines : List Text → List Text
unfolding line_keys
boot_keys_from_lines lines = text "c" ∷ line_keys lines

unfoldable pub boot_command_keys : Text → Text → Text → Bool → List Text
unfolding boot_keys_from_lines boot_lines
boot_command_keys role ks_url ip_arg single_disk =
    boot_keys_from_lines (boot_lines role ks_url ip_arg single_disk)

unfoldable pub boot_command_keys_from_text : Text → List Text
unfolding boot_keys_from_lines split_lines
boot_command_keys_from_text t = let (l, ls) = split_lines t in boot_keys_from_lines (l ∷ ls)
