-- ===== src/Config/Settings.antt =====
-- internal/config/settings.go. The decoding of encoding/json is a parameter: the number of the key
-- `max_history`, 0 without it, or an error.
use autodeploy_web.Base.{
  false, Option, none, some, Text, if◌then◌else◌, ℤ, pos, leb_ℤ, ◌≡◌, refl, inl, inr, Bool-cases,
}

unfoldable pub default_max_history : ℤ
default_max_history = pos 20

unfoldable pub coerced : ℤ → ℤ
unfolding default_max_history
coerced n = if leb_ℤ n (pos 0) then default_max_history else n

-- `LoadSettings`, from the contents of the file if it can be read.
unfoldable pub load_settings : (Text → Option ℤ) → Option Text → ℤ
load_settings decode none = default_max_history
load_settings decode (some b) = elim (decode b) [ none ↦ default_max_history | some n ↦ coerced n ]

coerced_positive : (n : ℤ) → leb_ℤ (coerced n) (pos 0) ≡ false
unfolding coerced default_max_history
coerced_positive n = elim (Bool-cases (leb_ℤ n (pos 0))) [ inl h ↦ rw h refl | inr h ↦ rw h h ]

-- Whatever the file holds, the loaded cap on the history is positive.
pub load_settings_positive :
    (decode : Text → Option ℤ) (file : Option Text)
    → leb_ℤ (load_settings decode file) (pos 0) ≡ false
unfolding load_settings default_max_history
load_settings_positive decode none = refl
load_settings_positive decode (some b) = decoded (decode b)
  where
    decoded :
        (o : Option ℤ)
        → leb_ℤ (elim o [ none ↦ default_max_history | some n ↦ coerced n ]) (pos 0) ≡ false
    decoded none = refl
    decoded (some n) = coerced_positive n
