-- ===== src/Wiring/Deletion.antt =====
-- The default repository goes last: after the configuration backup has moved and each of its
-- backups is deleted.
pub mod Whole
use mathlib.Core.Path.{subst}
use autodeploy_web.Base.{
  ℕ, Text, text_eq, text_eq_self, Bool, true, false, List, [], ◌∷◌, is_empty, Bool-cases, inl, inr,
  ◌≡◌, refl, sym, if◌then◌else◌, arith, ℤ, not, ◌&&◌, ◌++◌,
}
use autodeploy_web.Deploy.Run.{NodeDeploy}
use autodeploy_web.Wiring.Program.{
  Call, Program, Answer, ok, err, Response, ret, fail, ask, wrap, ◌>>=◌, ◌>>◌, finally_logout,
  redirect_config_backup, find_repository_by_name, list_backups, delete_backup, delete_repository,
  wait_session,
}
use autodeploy_web.Wiring.Guarded.{
  Monitor, Guarded, bind-Guarded, then-Guarded, weaken-Guarded, ret-Guarded, fail-Guarded,
  ask-Guarded, wrap-Guarded,
}
use autodeploy_web.Wiring.Settings.{Settings}
use autodeploy_web.Wiring.Retry.{wait}
use autodeploy_web.Wiring.Cluster.{delete_backups, remove_default_repository, default_repository}
use autodeploy_web.Wiring.Topology.{free_default_repository}

-- How far the removal of a repository has come: `named` has the id that was found, which is not
-- empty, `listed` has the backups that are left, and
-- `cleaning` the session of the deletion under way.
pub data Progress : Type 0 where
  idle moved : Progress
  named : Text → Progress
  listed : Text → List Text → Progress
  cleaning : Text → List Text → Text → Progress

unfoldable pub after_redirect : Progress → Answer (Unit {0}) → Progress
after_redirect s (ok _) = moved
after_redirect s (err _) = s

unfoldable pub after_find : Progress → Text → Answer Text → Progress
after_find moved name (ok id) =
    if text_eq name default_repository && not (is_empty id) then named id else moved
after_find s name r = s

unfoldable pub after_list : Progress → Answer (List Text) → Progress
after_list (named id) (ok bs) = listed id bs
after_list s r = s

unfoldable pub after_delete : Progress → Answer Text → Progress
after_delete (listed id (b ∷ bs)) (ok sess) =
    if is_empty sess then listed id bs else cleaning id bs sess
after_delete s r = s

unfoldable pub after_wait : Progress → Text → Answer (Unit {0}) → Progress
after_wait (cleaning id bs sess) x (ok _) =
    if text_eq x sess then listed id bs else cleaning id bs sess
after_wait s x r = s

abbrev pub order_next : Progress → (c : Call) → Answer (Response c) → Progress
order_next s (redirect_config_backup _) r = after_redirect s r
order_next s (find_repository_by_name name) r = after_find s name r
order_next s (list_backups _) r = after_list s r
order_next s (delete_backup _) r = after_delete s r
order_next s (wait_session x _ _) r = after_wait s x r
order_next s _ r = s

-- The next backup of the list, the repository itself when none is left.
pub data Next (x : Text) : Progress → Type 0 where
  next : (id : Text) (bs : List Text) → Next x (listed id (x ∷ bs))

abbrev pub InOrder : Progress → Call → Type 0
InOrder s (list_backups x) = s ≡ named x
InOrder s (delete_backup x) = Next x s
InOrder s (delete_repository x) = s ≡ listed x []
InOrder s _ = Unit

abbrev pub removal : Monitor Progress
removal = record { next = order_next; Allowed = InOrder }

abbrev pub Reaches : {A : Type 0} → (Progress → A → Type 0) → Program A → Progress → Type 0
Reaches Q p s = Guarded removal Q (λ _ _. Unit {0}) p s

at-Reaches :
    {A : Type 0} {Q : Progress → A → Type 0} {s : Progress} {t : Progress} (p : Program A)
    → t ≡ s
    → Reaches Q p s
    → Reaches Q p t
at-Reaches {Q = Q} p e g = subst (Reaches Q p) (sym e) g

-- No deletion is under way.
abbrev pub Calm : Progress → Type 0
Calm (cleaning _ _ _) = ⊥
Calm _ = Unit

module _ (cfg : Settings) where
  -- The wait for the deletion of one backup.
  cleaned-Reaches :
      (id sess : Text) (bs : List Text)
      → Reaches (λ t _. t ≡ listed id bs) (wait cfg sess 10) (cleaning id bs sess)
  unfolding wait after_wait
  cleaned-Reaches id sess bs =
      ask-Guarded (wait_session sess 10 cfg.session_timeout) (cleaning id bs sess) tt
        (λ _. rw (text_eq_self sess) refl) (λ _. tt)

  delete_backup-Reaches :
      (id b : Text) (bs : List Text)
      → Reaches
          (λ t _. t ≡ listed id bs)
          (ask (delete_backup b) >>= λ sess. elim (is_empty sess) [
            | true ↦ ret tt
            | false ↦ wait cfg sess 10
          ])
          (listed id (b ∷ bs))
  unfolding after_delete
  delete_backup-Reaches id b bs =
      bind-Guarded {R = λ t sess. t ≡ (if is_empty sess then listed id bs else cleaning id bs sess)}
        _ _ _
        (ask-Guarded (delete_backup b) (listed id (b ∷ bs)) (Next.next id bs) (λ _. refl) (λ _. tt))
        λ t sess h. elim (Bool-cases (is_empty sess)) [
          | inl e ↦ rw e (ret-Guarded tt t (rw e at h))
          | inr e ↦ rw e (at-Reaches _ (rw e at h) (cleaned-Reaches id sess bs))
        ]

  delete_backups-Reaches :
      (id : Text) (bs : List Text)
      → Reaches (λ t _. t ≡ listed id []) (delete_backups cfg bs) (listed id bs)
  unfolding delete_backups
  delete_backups-Reaches id [] = ret-Guarded tt _ refl
  delete_backups-Reaches id (b ∷ bs) =
      then-Guarded _ _ _
        (wrap-Guarded {F = λ _ _. Unit {0}} _ _ _ (delete_backup-Reaches id b bs) (λ _ _ _. tt))
        (λ t _ h. at-Reaches _ h (delete_backups-Reaches id bs))

  pub remove_default_repository-Reaches :
      Reaches (λ t _. Calm t) (remove_default_repository cfg) moved
  unfolding remove_default_repository after_find after_list
  remove_default_repository-Reaches =
      bind-Guarded {R = λ t id. t ≡ (if not (is_empty id) then named id else moved)} _ _ _
        (ask-Guarded (find_repository_by_name default_repository) moved tt
          (λ _. rw (text_eq_self default_repository) refl) (λ _. tt))
        λ t id h. elim (Bool-cases (is_empty id)) [
          | inl e ↦ rw e (ret-Guarded tt t (subst Calm (sym (rw e at h)) tt))
          | inr e ↦ rw e (at-Reaches _ (rw e at h) (listing id))
        ]
    where
      listing :
          (id : Text)
          → Reaches
              (λ t _. Calm t)
              (ask (list_backups id) >>= λ bs. delete_backups cfg bs >> ask (delete_repository id))
              (named id)
      listing id =
          bind-Guarded {R = λ t bs. t ≡ listed id bs} _ _ _
            (ask-Guarded (list_backups id) (named id) refl (λ _. refl) (λ _. tt))
            λ t bs h. at-Reaches _ h (
              then-Guarded _ _ _ (delete_backups-Reaches id bs) λ u _ k.
                ask-Guarded (delete_repository id) u k (λ _. subst Calm (sym k) tt) (λ _. tt))

  pub free_default_repository-Reaches :
      (id : Text) → Reaches (λ t _. Calm t) (free_default_repository cfg id) idle
  unfolding free_default_repository after_redirect
  free_default_repository-Reaches id = elim (Bool-cases (is_empty id)) [
    | inl h ↦ rw (free_default_repository, h) (ret-Guarded tt idle tt)
    | inr h ↦
        rw (free_default_repository, h)
          (then-Guarded {R = λ t _. t ≡ moved} _ _ _
            (wrap-Guarded {F = λ _ _. Unit {0}} _ _ _
              (ask-Guarded (redirect_config_backup id) idle tt (λ _. refl) (λ _. tt)) (λ _ _ _. tt))
            λ t _ k. at-Reaches _ k (
              wrap-Guarded {F = λ _ _. Unit {0}} _ _ _ remove_default_repository-Reaches
                (λ _ _ _. tt)))
  ]
