-- ===== src/Storage/Pools.antt =====
-- storage.go: what parseZpoolStatus keeps of the pools that zpool status prints.
use mathlib.Core.Path.{subst}
use pfortainer.Base.{
  ◌≡◌, refl, sym, ap, ◌∙◌, inl, inr, Bool, true, false, not, Option, none, some, List, [], ◌∷◌,
  ◌++◌, map, append-nil, append_assoc, arith, Text, codes, text_eq, has_prefix, fields, trim_prefix,
  scan_lines, trim, All, All-append, if◌then◌else◌, Bool-cases, Option-cases,
}
use pfortainer.Storage.{
  PoolStatus, Scan, flush, after_key, online, new_pool, leading_spaces, VdevNode, vdev_of,
  config_line, pool_line, status_line, scan_status, parse_zpool_status,
}

abbrev IsSound : PoolStatus → Type 0
IsSound p = p.healthy ≡ text_eq p.state online

-- The pool at hand keeps its name, and is sound.
abbrev Kept : PoolStatus → Option PoolStatus → Type 0
Kept p none = ⊥
Kept p (some q) = (q.name ≡ p.name) × IsSound q

abbrev After : PoolStatus → Scan → Scan → Type 0
After p st st' = (st'.pools ≡ st.pools) × Kept p st'.cur

-- Both branches of a test do.
either_way :
    (P : Scan → Type 0) (test : Bool) {yes' no' : Scan}
    → P yes'
    → P no'
    → P (if test then yes' else no')
either_way P false holds other = other
either_way P true holds other = holds

module _ (line t : Text) (p : PoolStatus) (st : Scan) (at : st.cur ≡ some p) (h : IsSound p) where
  unmoved : Kept p st.cur
  unmoved = subst (Kept p) (sym at) (refl, h)

  config_line-After : After p st (config_line line t p st)
  unfolding config_line
  config_line-After =
      either_way (After p st) (text_eq t []) (refl, unmoved)
        (either_way (After p st) (not st.header_seen) (refl, unmoved)
          (row_after (vdev_of (leading_spaces (trim_prefix line (9 ∷ []))) (fields t))))
    where
      row_after :
          (o : Option VdevNode)
          → After p st (elim o [
            | none ↦ st
            | some n ↦ record st { cur = some (record p { vdevs = p.vdevs ++ n ∷ [] }) }
          ])
      row_after none = (refl, unmoved)
      row_after (some n) = (refl, (refl, h))

  pool_line-After : After p st (pool_line line t p st)
  unfolding pool_line
  pool_line-After =
      either_way (After p st) (has_prefix t (codes "state:")) (refl, (refl, refl))
        (either_way (After p st) (has_prefix t (codes "status:")) (refl, (refl, h))
          (either_way (After p st) (has_prefix t (codes "action:")) (refl, (refl, h))
            (either_way (After p st) (has_prefix t (codes "scan:")) (refl, (refl, h))
              (either_way (After p st) (has_prefix t (codes "errors:")) (refl, (refl, h))
                (either_way (After p st) (has_prefix t (codes "config:")) (refl, unmoved)
                  (either_way (After p st) st.in_config config_line-After (refl, unmoved)))))))

abbrev pub name_of : PoolStatus → Text
name_of p = p.name

-- The pool that a line starts.
abbrev pub started : Text → List Text
started line =
    if has_prefix (trim line) (codes "pool:")
    then after_key (trim line) (codes "pool:") ∷ []
    else []

abbrev pub pools_started : List Text → List Text
pools_started [] = []
pools_started (l ∷ ls) = started l ++ pools_started ls

last_All :
    (ps : List PoolStatus) (p : PoolStatus)
    → All IsSound (ps ++ p ∷ [])
    → All IsSound ps × IsSound p
last_All [] p h = (tt, h.0)
last_All (q ∷ ps) p h = let (hs, hp) = last_All ps p h.1 in ((h.0, hs), hp)

map-concat :
    (ps : List PoolStatus) (p : PoolStatus)
    → map name_of (ps ++ p ∷ []) ≡ map name_of ps ++ p.name ∷ []
map-concat [] p = refl
map-concat (q ∷ ps) p = ap (λ t. q.name ∷ t) (map-concat ps p)

flush-some : (st : Scan) (p : PoolStatus) → st.cur ≡ some p → flush st ≡ st.pools ++ p ∷ []
unfolding flush
flush-some st p e = rw (e, flush) refl

flush-none : (st : Scan) → st.cur ≡ none → flush st ≡ st.pools
unfolding flush
flush-none st e = rw (e, flush) refl

-- What a line within a pool leaves of the pools found so far.
flush-Kept :
    (p : PoolStatus) (st st' : Scan)
    → st.cur ≡ some p
    → All IsSound (flush st)
    → After p st st'
    → All IsSound (flush st') × (map name_of (flush st') ≡ map name_of (flush st))
flush-Kept p st st' e h (same, kept) = elim (Option-cases st'.cur) [
  | inl n ↦ absurd (subst (Kept p) n kept)
  | inr (q, e') ↦
      let (hs, _) = last_All st.pools p (subst (All IsSound) (flush-some st p e) h) in
      let (named, sound) = subst (Kept p) e' kept in
      rw (flush-some st' q e', flush-some st p e, same)
        (
          All-append IsSound st.pools (q ∷ []) hs (sound, tt),
          map-concat st.pools q
              ∙ (ap (λ t. map name_of st.pools ++ t ∷ []) named ∙ sym (map-concat st.pools p)),
        )
]

Line : Text → Scan → Scan → Type 0
Line line st st' =
    All IsSound (flush st') × (map name_of (flush st') ≡ map name_of (flush st) ++ started line)

-- A line that starts a pool.
abbrev opened : Text → Scan → Scan
opened line st = record {
  pools = flush st;
  cur = some (new_pool (after_key (trim line) (codes "pool:")));
  in_config = false;
  header_seen = false;
}

starts :
    (line : Text) (st : Scan)
    → All IsSound (flush st)
    → All IsSound (flush (opened line st))
      × (map name_of (flush (opened line st))
          ≡ map name_of (flush st) ++ after_key (trim line) (codes "pool:") ∷ [])
unfolding new_pool text_eq
starts line st h =
    let p = new_pool (after_key (trim line) (codes "pool:")) in
    rw (flush-some (opened line st) p refl)
      (All-append IsSound (flush st) (p ∷ []) h (refl, tt), map-concat (flush st) p)

outside :
    (line : Text) (st : Scan)
    → has_prefix (trim line) (codes "pool:") ≡ false
    → st.cur ≡ none
    → status_line line st ≡ st
unfolding status_line
outside line st e n = ground arith

inside :
    (line : Text) (st : Scan) (p : PoolStatus)
    → has_prefix (trim line) (codes "pool:") ≡ false
    → st.cur ≡ some p
    → status_line line st ≡ pool_line line (trim line) p st
unfolding status_line
inside line st p e c = ground arith

status_line_after :
    (line : Text) (st : Scan) → All IsSound (flush st) → Line line st (status_line line st)
unfolding Line status_line
status_line_after line st h = elim (Bool-cases (has_prefix (trim line) (codes "pool:"))) [
  | inl e ↦ rw (e, status_line) (starts line st h)
  | inr e ↦ elim (Option-cases st.cur) [
    | inl n ↦
        let same : status_line line st ≡ st = outside line st e n in
        rw (same, e) (h, sym (append-nil (map name_of (flush st))))
    | inr (p, c) ↦
        let hp = (last_All st.pools p (subst (All IsSound) (flush-some st p c) h)).1 in
        let (sound, same) =
          flush-Kept p st (pool_line line (trim line) p st) c h
            (pool_line-After line (trim line) p st c hp) in
        rw (inside line st p e c, e) (sound, same ∙ sym (append-nil (map name_of (flush st))))
  ]
]

scan_status_after :
    (ls : List Text) (st : Scan)
    → All IsSound (flush st)
    → All IsSound (flush (scan_status st ls))
      × (map name_of (flush (scan_status st ls)) ≡ map name_of (flush st) ++ pools_started ls)
unfolding scan_status Line
scan_status_after [] st h = (h, sym (append-nil (map name_of (flush st))))
scan_status_after (l ∷ ls) st h =
    let (one, named) = status_line_after l st h in
    let (rest, names) = scan_status_after ls (status_line l st) one in
    (
      rest,
      names
          ∙ (ap (λ t. t ++ pools_started ls) named
              ∙ append_assoc (map name_of (flush st)) (started l) (pools_started ls)),
    )

-- Whatever the text, parseZpoolStatus returns one pool for each line that begins with "pool:" and
-- that the scanner returns, which stops before the first line of 64 KiB or more, in order and by
-- the name on it, and marks a pool as healthy exactly if its state is ONLINE.
pub parse_zpool_status_sound :
    (out : Text)
    → (map name_of (parse_zpool_status out) ≡ pools_started (scan_lines out))
      × All (λ p. p.healthy ≡ text_eq p.state (codes "ONLINE")) (parse_zpool_status out)
unfolding parse_zpool_status flush
parse_zpool_status_sound out =
    let (sound, names) =
      scan_status_after (scan_lines out)
        record { pools = []; cur = none; in_config = false; header_seen = false } tt in
    (names, sound)
