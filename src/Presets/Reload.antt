-- ===== src/Presets/Reload.antt =====
-- A preset that is saved reads back, and no other preset changes.
use autodeploy_web.Base.{
  ℕ, false, [], ◌∷◌, ◌++◌, Option, none, some, Text, text, text_eq, text_eq→eq, text_eq-false, ◌≡◌,
  ◌⊎◌, refl, ap, ◌∙◌, arith, Bool-cases, inl, inr,
}
use autodeploy_web.Base.Registry.{lookup, put, remove}
use autodeploy_web.Base.Registry.Lookup.{lookup-put_self, lookup-put_other, lookup-remove_other}
use mathlib.Core.List.{append_cancel_right}
use autodeploy_web.Presets.{
  Kind, file, folder, Entry, entry_name, Folder, Failure, done, failed, path, write_file, rename,
  read_file, save, load, is_folder, missing,
}

-- The last byte of a text, or the one before it.
last_byte : ℕ → Text → ℕ
last_byte c [] = c
last_byte c (x ∷ s) = last_byte x s

last_byte-append : (c : ℕ) (s t : Text) → last_byte c (s ++ t) ≡ last_byte (last_byte c s) t
unfolding last_byte
last_byte-append c [] t = refl
last_byte-append c (x ∷ s) t = last_byte-append x s t

-- The file that a save writes first is never a preset's.
tmp-json : (s t : Text) → text_eq (s ++ text ".tmp") (t ++ text ".json") ≡ false
unfolding last_byte text
tmp-json s t = elim (Bool-cases (text_eq (s ++ text ".tmp") (t ++ text ".json"))) [
  | inr h ↦ h
  | inl h ↦
      let e : s ++ text ".tmp" ≡ t ++ text ".json" = text_eq→eq _ _ h in
      absurd (
        ground (
          arith,
          ap (last_byte 0) e,
          last_byte-append 0 s (text ".tmp"),
          last_byte-append 0 t (text ".json"),
        ))
]

append-cancel : (s t u : Text) → text_eq s t ≡ false → text_eq (s ++ u) (t ++ u) ≡ false
append-cancel s t u h = elim (Bool-cases (text_eq (s ++ u) (t ++ u))) [
  | inr k ↦ k
  | inl k ↦ absurd (text_eq-false s t h (append_cancel_right s t u (text_eq→eq _ _ k)))
]

path-file : (name : Text) (p : Text) → path name ≡ some p → p ≡ name ++ text ".json"
unfolding path
path-file name p h = ground (arith, h)

-- No directory stands at a name.
abbrev pub Writable : Option Entry → Type 0
Writable none = Unit
Writable (some e) = (contents : Text) × ((modified : ℕ) × (e.kind ≡ file contents modified))

write_file-Writable :
    (name contents : Text) (now : ℕ) (d : Folder)
    → Writable (lookup entry_name name d)
    → write_file name contents now d
      ≡ done (put entry_name (record { name = name; kind = file contents now }) d)
unfolding write_file
write_file-Writable name contents now d w = by_entry (lookup entry_name name d) refl w
  where
    by_entry :
        (o : Option Entry)
        → lookup entry_name name d ≡ o
        → Writable o
        → write_file name contents now d
          ≡ done (put entry_name (record { name = name; kind = file contents now }) d)
    by_entry none e w = rw (write_file, e) refl
    by_entry (some x) e w = rw (write_file, e, w.1.1) refl

rename-Writable :
    (old target : Text) (e : Entry) (d : Folder)
    → lookup entry_name old d ≡ some e
    → Writable (lookup entry_name target d)
    → rename old target d
      ≡ done (put entry_name (record e { name = target }) (remove entry_name old d))
unfolding rename
rename-Writable old target e d h w = by_entry (lookup entry_name target d) refl w
  where
    by_entry :
        (o : Option Entry)
        → lookup entry_name target d ≡ o
        → Writable o
        → rename old target d
          ≡ done (put entry_name (record e { name = target }) (remove entry_name old d))
    by_entry none k w = rw (rename, h, k) refl
    by_entry (some x) k w = rw (rename, h, k, w.1.1) refl

-- How a write and a rename come out, whatever is there.
write_file-cases :
    (name contents : Text) (now : ℕ) (d : Folder)
    → ((f : Failure) × (write_file name contents now d ≡ failed f))
      ⊎ (write_file name contents now d
          ≡ done (put entry_name (record { name = name; kind = file contents now }) d))
unfolding write_file
write_file-cases name contents now d = by_entry (lookup entry_name name d) refl
  where
    by_kind :
        (e : Entry) (k : Kind)
        → lookup entry_name name d ≡ some e
        → e.kind ≡ k
        → ((f : Failure) × (write_file name contents now d ≡ failed f))
          ⊎ (write_file name contents now d
              ≡ done (put entry_name (record { name = name; kind = file contents now }) d))
    by_kind e (file c m) h k = inr (rw (write_file, h, k) refl)
    by_kind e (folder b) h k = inl (is_folder, rw (write_file, h, k) refl)

    by_entry :
        (o : Option Entry)
        → lookup entry_name name d ≡ o
        → ((f : Failure) × (write_file name contents now d ≡ failed f))
          ⊎ (write_file name contents now d
              ≡ done (put entry_name (record { name = name; kind = file contents now }) d))
    by_entry none h = inr (rw (write_file, h) refl)
    by_entry (some e) h = by_kind e e.kind h refl

rename-cases :
    (old target : Text) (d : Folder)
    → ((f : Failure) × (rename old target d ≡ failed f))
      ⊎ ((e : Entry) × (rename old target d
            ≡ done (put entry_name (record e { name = target }) (remove entry_name old d))))
unfolding rename
rename-cases old target d = by_old (lookup entry_name old d) refl
  where
    by_kind :
        (e t : Entry) (k : Kind)
        → lookup entry_name old d ≡ some e
        → lookup entry_name target d ≡ some t
        → t.kind ≡ k
        → ((f : Failure) × (rename old target d ≡ failed f))
          ⊎ ((e : Entry) × (rename old target d
                ≡ done (put entry_name (record e { name = target }) (remove entry_name old d))))
    by_kind e t (file c m) h i k = inr (e, rw (rename, h, i, k) refl)
    by_kind e t (folder b) h i k = inl (is_folder, rw (rename, h, i, k) refl)

    by_target :
        (e : Entry) (o : Option Entry)
        → lookup entry_name old d ≡ some e
        → lookup entry_name target d ≡ o
        → ((f : Failure) × (rename old target d ≡ failed f))
          ⊎ ((e : Entry) × (rename old target d
                ≡ done (put entry_name (record e { name = target }) (remove entry_name old d))))
    by_target e none h i = inr (e, rw (rename, h, i) refl)
    by_target e (some t) h i = by_kind e t t.kind h i refl

    by_old :
        (o : Option Entry)
        → lookup entry_name old d ≡ o
        → ((f : Failure) × (rename old target d ≡ failed f))
          ⊎ ((e : Entry) × (rename old target d
                ≡ done (put entry_name (record e { name = target }) (remove entry_name old d))))
    by_old none h = inl (missing, rw (rename, h) refl)
    by_old (some e) h = by_target e (lookup entry_name target d) h refl

module _ {V : Type 0} (encode : V → Text) (decode : V → Text → Option V) where
  -- A save that nothing stands in the way of.
  save-done :
      (name p : Text) (v : V) (now : ℕ) (d : Folder)
      → path name ≡ some p
      → Writable (lookup entry_name (p ++ text ".tmp") d)
      → Writable (lookup entry_name p d)
      → (e : Entry) × ((e.kind ≡ file (encode v) now)
          × (save encode decode name v now d ≡ (
            put entry_name
                (record e { name = p })
                (remove entry_name (p ++ text ".tmp") (put entry_name e d)),
            none,
          )))
  unfolding save
  save-done name p v now d h w1 w2 =
      let tmp = p ++ text ".tmp" in
      let e : Entry = record { name = tmp; kind = file (encode v) now } in
      let away : text_eq tmp p ≡ false = rw (path-file name p h) (tmp-json _ name) in
      let there : Writable (lookup entry_name p (put entry_name e d)) =
        rw (lookup-put_other entry_name p e d away) w2 in
      (
        e,
        (
          refl,
          rw
              (
                save,
                h,
                write_file-Writable tmp (encode v) now d w1,
                rename-Writable tmp p e (put entry_name e d) (lookup-put_self entry_name e d) there,
              )
              refl,
        ),
      )

  -- A value that is saved under a valid name is read back under it, when no directory stands in
  -- the way and the decoding undoes the encoding.
  pub save-load :
      (base v : V) (name p : Text) (now : ℕ) (d : Folder)
      → decode base (encode v) ≡ some v
      → path name ≡ some p
      → Writable (lookup entry_name (p ++ text ".tmp") d)
      → Writable (lookup entry_name p d)
      → let r = save encode decode name v now d in
        (r.1 ≡ none) × (load encode decode base name r.0 ≡ done v)
  unfolding load read_file
  save-load base v name p now d c h w1 w2 =
      let (e, kr) = save-done name p v now d h w1 w2 in
      let (k, r) = kr in
      let kept = remove entry_name (p ++ text ".tmp") (put entry_name e d) in
      let found = lookup-put_self entry_name (record e { name = p }) kept in
      rw r (refl, rw (load, h, read_file, found, k, c) refl)

  lookup-save_other :
      (j name : Text) (v : V) (now : ℕ) (d : Folder)
      → text_eq name j ≡ false
      → let q = j ++ text ".json" in
        lookup entry_name q (save encode decode name v now d).0 ≡ lookup entry_name q d
  unfolding save
  lookup-save_other j name v now d n = by_path (path name) refl
    where
      by_rename :
          (p : Text)
          → path name ≡ some p
          → write_file (p ++ text ".tmp") (encode v) now d
            ≡ done
                (put entry_name (record { name = p ++ text ".tmp"; kind = file (encode v) now }) d)
          → lookup entry_name (j ++ text ".json") (save encode decode name v now d).0
            ≡ lookup entry_name (j ++ text ".json") d
      by_rename p h w =
          let e : Entry = record { name = p ++ text ".tmp"; kind = file (encode v) now } in
          let away : text_eq (p ++ text ".tmp") (j ++ text ".json") ≡ false = tmp-json p j in
          let first = lookup-put_other entry_name (j ++ text ".json") e d away in
          elim (rename-cases (p ++ text ".tmp") p (put entry_name e d)) [
            | inl f ↦ rw (save, h, w, f.1) first
            | inr g ↦
                let other : text_eq p (j ++ text ".json") ≡ false =
                  rw (path-file name p h) (append-cancel name j (text ".json") n) in
                rw (save, h, w, g.1)
                  (lookup-put_other entry_name _ (record g.0 { name = p }) _ other
                    ∙ lookup-remove_other entry_name _ (p ++ text ".tmp") (put entry_name e d) away
                    ∙ first)
          ]

      by_path :
          (o : Option Text)
          → path name ≡ o
          → lookup entry_name (j ++ text ".json") (save encode decode name v now d).0
            ≡ lookup entry_name (j ++ text ".json") d
      by_path none h = rw (save, h) refl
      by_path (some p) h = elim (write_file-cases (p ++ text ".tmp") (encode v) now d) [
        | inl f ↦ rw (save, h, f.1) refl
        | inr w ↦ by_rename p h w
      ]

  -- A save under one name, however it comes out, changes no other preset.
  pub save-load_other :
      (base v : V) (j name : Text) (now : ℕ) (d : Folder)
      → text_eq name j ≡ false
      → load encode decode base j (save encode decode name v now d).0 ≡ load encode decode base j d
  unfolding load read_file
  save-load_other base v j name now d n = by_path (path j) refl
    where
      by_path :
          (o : Option Text)
          → path j ≡ o
          → load encode decode base j (save encode decode name v now d).0
            ≡ load encode decode base j d
      by_path none h = rw (load, h) refl
      by_path (some q) h =
          let same = lookup-save_other j name v now d n in
          rw (load, h, path-file j q h, read_file, same) refl
