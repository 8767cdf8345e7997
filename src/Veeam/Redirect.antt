-- ===== src/Veeam/Redirect.antt =====
-- What the configuration backup's settings become (internal/veeam/veeam.go, `RedirectConfigBackup`).
use mathlib.Core.Path.{subst}
use autodeploy_web.Base.{
  Bool, true, false, Option, none, some, Text, text, text_eq, text_eq_iff, text_eq_self, ◌≡◌, refl,
  sym, ap, ◌∙◌, arith, if◌then◌else◌,
}
use autodeploy_web.Veeam.{Json, Fields, null, boolean, number, array, string, object, end, field}
use autodeploy_web.Veeam.Calls.{
  set_field, get_field, as_text, backup_repository_id, notifications, snmp_enabled, without_snmp,
  redirected,
}

get-set_field : (k : Text) (v : Json) (s : Fields) → get_field k (set_field k v s) ≡ some v
unfolding set_field get_field
get-set_field k v end = rw (text_eq_self k) refl
get-set_field k v (field l w fs) = by_key (get-set_field k v fs) (text_eq k l) refl
  where
    by_key :
        get_field k (set_field k v fs) ≡ some v
        → (b : Bool) → text_eq k l ≡ b
        → get_field k (set_field k v (field l w fs)) ≡ some v
    by_key again true h = rw (h, h) refl
    by_key again false h = rw (h, h) again

get-set_field_other :
    (k : Text) (v : Json) (l : Text) (s : Fields)
    → text_eq l k ≡ false
    → get_field l (set_field k v s) ≡ get_field l s
unfolding set_field get_field
get-set_field_other k v l end n = rw n refl
get-set_field_other k v l (field m w fs) n =
    by_key (get-set_field_other k v l fs n) (text_eq k m) refl
  where
    by_key :
        get_field l (set_field k v fs) ≡ get_field l fs
        → (b : Bool) → text_eq k m ≡ b
        → get_field l (set_field k v (field m w fs)) ≡ get_field l (field m w fs)
    by_key again true h =
        let away : text_eq l m ≡ false = rw (sym ((text_eq_iff k m).0 h)) n in rw (h, away) refl
    by_key again false h = rw h (ap (λ r. if text_eq l m then some w else r) again)

-- A redirection writes the repository, turns SNMP off in the notifications that are there, keeps every
-- other setting, and is a no-op the second time.
pub record Redirected (repo : Text) (s t : Fields) : Type 0 where
  pub target : get_field backup_repository_id t ≡ some (string repo)
  pub kept :
      (k : Text)
      → text_eq k backup_repository_id ≡ false
      → text_eq k notifications ≡ false
      → get_field k t ≡ get_field k s
  pub quiet :
      (n : Fields)
      → get_field notifications s ≡ some (object n)
      → get_field notifications t ≡ some (object (set_field snmp_enabled (boolean false) n))
  pub settled : redirected repo t ≡ none

without_snmp-other :
    (o : Option Json) (k : Text) (s : Fields)
    → text_eq k notifications ≡ false
    → get_field k (without_snmp o s) ≡ get_field k s
unfolding without_snmp
without_snmp-other none k s n = refl
without_snmp-other (some null) k s n = refl
without_snmp-other (some (boolean b)) k s n = refl
without_snmp-other (some (number i)) k s n = refl
without_snmp-other (some (string t)) k s n = refl
without_snmp-other (some (array xs)) k s n = refl
without_snmp-other (some (object m)) k s n = get-set_field_other _ _ k s n

redirected-none :
    (repo : Text) (t : Fields)
    → get_field backup_repository_id t ≡ some (string repo)
    → redirected repo t ≡ none
unfolding redirected as_text
redirected-none repo t h = rw (h, text_eq_self repo) refl

names-distinct :
    (text_eq notifications backup_repository_id ≡ false)
    × (text_eq backup_repository_id notifications ≡ false)
unfolding notifications backup_repository_id text text_eq
names-distinct = (refl, refl)

put_back : Text → Fields → Fields
put_back repo s =
    let u = set_field backup_repository_id (string repo) s in
    without_snmp (get_field notifications u) u

put_back-Redirected : (repo : Text) (s : Fields) → Redirected repo s (put_back repo s)
unfolding put_back without_snmp
put_back-Redirected repo s = record {
  target = target_of;
  kept = λ k n m.
      without_snmp-other _ k u m ∙ get-set_field_other backup_repository_id (string repo) k s n;
  quiet = λ n h. quiet_of n (get-set_field_other _ _ notifications s names-distinct.0 ∙ h);
  settled = redirected-none repo _ target_of;
}
  where
    u : Fields
    u = set_field backup_repository_id (string repo) s

    target_of :
        get_field backup_repository_id (without_snmp (get_field notifications u) u)
        ≡ some (string repo)
    target_of =
        without_snmp-other _ backup_repository_id u names-distinct.1
        ∙ get-set_field backup_repository_id (string repo) s

    quiet_of :
        (n : Fields)
        → get_field notifications u ≡ some (object n)
        → get_field notifications (without_snmp (get_field notifications u) u)
          ≡ some (object (set_field snmp_enabled (boolean false) n))
    quiet_of n h = rw (h, without_snmp) (get-set_field notifications _ u)

-- The settings that the redirection of the configuration backup puts back name the repository,
-- turn SNMP off in the notifications that are there, keep every setting of another name, and a
-- second redirection puts nothing back.
pub redirected-Redirected :
    (repo : Text) (s t : Fields) → redirected repo s ≡ some t → Redirected repo s t
unfolding redirected put_back
redirected-Redirected repo s t h =
    by_current (text_eq (as_text (get_field backup_repository_id s)) repo) refl h
  where
    by_current :
        (b : Bool)
        → text_eq (as_text (get_field backup_repository_id s)) repo ≡ b
        → redirected repo s ≡ some t
        → Redirected repo s t
    by_current true k g =
        let e : redirected repo s ≡ none = rw (redirected, k) refl in absurd (ground arith)
    by_current false k g =
        let e : redirected repo s ≡ some (put_back repo s) = rw (redirected, k) refl in
        let f = ap (λ o. elim o [ none ↦ s | some x ↦ x ]) (sym e ∙ g) in
        subst (Redirected repo s) f (put_back-Redirected repo s)
