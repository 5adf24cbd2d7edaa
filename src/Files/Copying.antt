-- ===== src/Files/Copying.antt =====
-- filemanager.go: what copyFile leaves in the target, and that copyDir ends.
use pfortainer.Base.{
  ℕ, zero, suc, ◌+◌, ◌≤◌, ◌<◌, ◌≡◌, refl, sym, ap, ◌∙◌, inl, inr, Bool, true, false, Option, none,
  some, List, [], ◌∷◌, ◌++◌, arith, Text, text_eq, text_eq_refl, ok, err, length, All,
  if◌then◌else◌, Result-cases,
}
use pfortainer.FilePath.{slash, print, rooted, join, IsName}
use pfortainer.FilePath.Resolve.{join_child}
use pfortainer.Files.{Info, Os}
use pfortainer.Files.Copy.{Step, then_entries, copy_file, copy_entries, copy_dir}

-- What os.OpenFile with O_TRUNC and writing document, where no two paths name one file.
pub record Writes {W : Type 0} (os : Os W) : Type 0 where
  pub read-truncate :
      (p : Text) (mode : ℕ) (w : W) (q : Text)
      → (os.truncate p mode w).0 ≡ ok tt
      → os.read_file q (os.truncate p mode w).1 ≡ (if text_eq q p then ok [] else os.read_file q w)
  pub read-append :
      (p t : Text) (w : W) (q old : Text)
      → os.read_file p w ≡ ok old
      → (os.append p t w).0 ≡ ok tt
      → os.read_file q (os.append p t w).1
        ≡ (if text_eq q p then ok (old ++ t) else os.read_file q w)

module _ {W : Type 0} (os : Os W) (writes : Writes os) where
  -- The steps of a copy that succeeds.
  copy_file_steps :
      (src dst : Text) (mode : ℕ) (w : W)
      → (copy_file os src dst mode w).0 ≡ ok tt
      → ((os.truncate dst mode w).0 ≡ ok tt)
        × (t : Text) × (os.read_file src (os.truncate dst mode w).1 ≡ ok t)
        × (copy_file os src dst mode w ≡ os.append dst t (os.truncate dst mode w).1)
  unfolding copy_file
  copy_file_steps src dst mode w h = elim (Result-cases (os.open_file src w)) [
    | inr (e, opened) ↦
        let stop : copy_file os src dst mode w ≡ (err e, w) = rw (opened, copy_file) refl in
        absurd (cc)
    | inl (_, opened) ↦ elim (Result-cases (os.truncate dst mode w).0) [
      | inr (e, made) ↦
          let stop : copy_file os src dst mode w ≡ (err e, (os.truncate dst mode w).1) =
            rw (opened, copy_file, made) refl in
          absurd (cc)
      | inl (_, made) ↦ elim (Result-cases (os.read_file src (os.truncate dst mode w).1)) [
        | inr (e, got) ↦
            let stop : copy_file os src dst mode w ≡ (err e, (os.truncate dst mode w).1) =
              rw (opened, copy_file, made, got) refl in
            absurd (cc)
        | inl (t, got) ↦ (made, t, got, rw (opened, copy_file, made, got) refl)
      ]
    ]
  ]

  -- Where no two paths name one file, after a copyFile without an error the target has what the
  -- source had, unless source and target are one path: then the file is empty. Every other file is
  -- as it was.
  pub copy_file_lem :
      (src dst : Text) (mode : ℕ) (w : W) (t : Text)
      → os.read_file src w ≡ ok t
      → (copy_file os src dst mode w).0 ≡ ok tt
      → (p : Text)
      → os.read_file p (copy_file os src dst mode w).1
        ≡ (if text_eq p dst then ok (if text_eq src dst then [] else t) else os.read_file p w)
  copy_file_lem src dst mode w t before h p =
      let (made, t', got, same) = copy_file_steps src dst mode w h in
      let w' : W = (os.truncate dst mode w).1 in
      let appended : (os.append dst t' w').0 ≡ ok tt = ap (λ (r : Step W). r.0) (sym same) ∙ h in
      let emptied : os.read_file dst w' ≡ ok [] =
        rw (writes.read-truncate dst mode w dst made) (rw (text_eq_refl dst) refl) in
      rw same (
        rw (writes.read-append dst t' w' p [] emptied appended) (
          rw (writes.read-truncate dst mode w p made)
            (ground (arith, writes.read-truncate dst mode w src made))))

module _ {W : Type 0} (os : Os W) (limit : ℕ) where
  -- Paths of `limit` bytes or more are refused, and a listing has proper names.
  pub record Bounded : Type 0 where
    pub short : (p : Text) (w : W) (es : List Info) → os.read_dir p w ≡ ok es → length p < limit
    pub proper :
        (p : Text) (w : W) (es : List Info) → os.read_dir p w ≡ ok es → All (λ e. IsName e.name) es

length_child : (a : Text) (x : ℕ) (c : Text) → length (a ++ x ∷ c) ≡ length a + 1 + length c
length_child [] x c = omega arith
length_child (y ∷ a) x c = omega (arith, length_child a x c)

length_name : (c : Text) → IsName c → 0 < length c
length_name [] h = absurd (h.not_empty refl)
length_name (x ∷ c) h = omega arith

-- A child's path is longer.
pub rooted_grows :
    (s : List Text) (c : Text) → IsName c → length (rooted s) < length (rooted (c ∷ s))
unfolding rooted print
rooted_grows [] c h = omega (arith, length_name c h)
rooted_grows (d ∷ s) c h = omega (arith, length_child (print (d ∷ s)) slash c, length_name c h)

module _ {W : Type 0} (os : Os W) where
  abbrev Returns : Option (Step W) → Type 0
  Returns o = (r : Step W) × (o ≡ some r)

  then_entries-Returns :
      (o : Option (Step W)) (next : W → Option (Step W))
      → Returns o
      → ((w : W) → Returns (next w))
      → Returns (then_entries os o next)
  unfolding then_entries
  then_entries-Returns none next (r, e) h = absurd (cc)
  then_entries-Returns (some (err x, w)) next e h = ((err x, w), refl)
  then_entries-Returns (some (ok _, w)) next e h = h w

  if-Returns :
      (b : Bool) (x y : Option (Step W)) → Returns x → Returns y → Returns (if b then x else y)
  if-Returns true x y h k = h
  if-Returns false x y h k = k

  copy_entries-Returns :
      (rec : Text → Text → ℕ → W → Option (Step W)) (s : List Text) (dst : Text)
      → All IsName s
      → ((c d : Text) (mode : ℕ) (w : W) → IsName c → Returns (rec (rooted (c ∷ s)) d mode w))
      → (es : List Info) (w : W) → All (λ e. IsName e.name) es
      → Returns (copy_entries os rec (rooted s) dst es w)
  unfolding copy_entries
  copy_entries-Returns rec s dst hs h [] w t = ((ok tt, w), refl)
  copy_entries-Returns rec s dst hs h (e ∷ es) w t =
      let into = rec (join (rooted s) e.name) (join dst e.name) e.mode w in
      let file = copy_file os (join (rooted s) e.name) (join dst e.name) e.mode w in
      then_entries-Returns (if e.is_dir then into else some file)
        (copy_entries os rec (rooted s) dst es)
        (if-Returns e.is_dir into (some file)
          (rw (join_child s e.name hs t.0) (h e.name (join dst e.name) e.mode w t.0)) (file, refl))
        (λ w'. copy_entries-Returns rec s dst hs h es w' t.1)

  module _ (limit : ℕ) (bounded : Bounded os limit) where
    -- One call of copyDir, given that the calls for the entries return.
    round :
        (fuel : ℕ) (s : List Text) (dst : Text) (mode : ℕ) (w : W)
        → All IsName s
        → ((es : List Info) (w' : W)
            → os.read_dir (rooted s) w' ≡ ok es
            → (c d : Text) (m : ℕ) (v : W) → IsName c
            → Returns (copy_dir os fuel (rooted (c ∷ s)) d m v))
        → Returns (copy_dir os (suc fuel) (rooted s) dst mode w)
    unfolding copy_dir
    round fuel s dst mode w hs deeper = elim (Result-cases (os.mkdir dst mode w).0) [
      | inr (e, made) ↦ ((err e, (os.mkdir dst mode w).1), rw (made, copy_dir) refl)
      | inl (_, made) ↦
          let w' : W = (os.mkdir dst mode w).1 in
          elim (Result-cases (os.read_dir (rooted s) w')) [
            | inr (e, listed) ↦ ((err e, w'), rw (made, copy_dir, listed) refl)
            | inl (es, listed) ↦
                rw (made, copy_dir, listed)
                  (copy_entries-Returns (copy_dir os fuel) s dst hs (deeper es w' listed) es w'
                    (bounded.proper (rooted s) w' es listed))
          ]
    ]

    -- Where the host refuses to list paths of `limit` bytes or more, and lists proper names,
    -- copyDir of the path of a list of proper names returns, whatever the target: as many nested
    -- calls are enough as `limit` exceeds the length of the source's path, and one more.
    pub copy_dir_returns :
        (fuel : ℕ) (s : List Text) (dst : Text) (mode : ℕ) (w : W)
        → All IsName s
        → limit ≤ fuel + length (rooted s)
        → (r : Step W) × (copy_dir os (suc fuel) (rooted s) dst mode w ≡ some r)
    copy_dir_returns zero s dst mode w hs enough =
        round zero s dst mode w hs
          (λ es w' listed c d m v h. absurd (omega (arith, bounded.short (rooted s) w' es listed)))
    copy_dir_returns (suc fuel) s dst mode w hs enough =
        round (suc fuel) s dst mode w hs (λ es w' listed c d m v h.
          copy_dir_returns fuel (c ∷ s) d m v (h, hs) (omega (arith, rooted_grows s c h)))
