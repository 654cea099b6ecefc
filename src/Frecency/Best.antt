-- ===== src/Frecency/Best.antt =====
-- Which directory `find_frecency_match` of c-shell/src/frecency.c chooses.
use c_shell.Base.{
  ℕ, suc, ◌+◌, ◌*◌, ◌^◌, ◌<◌, ◌≡◌, refl, ap, subst, ◌⊎◌, inl, inr, Bool, true, false, ◌&&◌, List,
  [], ◌∷◌, ◌++◌, Option, some, none, ltb, Bytes, Bool-cases, arith,
}
use c_shell.Frecency.{Entry, has_prefix, contains, score, matches, match_loop, find_frecency_match}

clash : {b : Bool} → b ≡ false → b ≡ true → ⊥
clash f t = cc

module _ (access_ok : Bytes → Bool) (name : Bytes) where
  -- Each entry that matches scores less than `n`.
  Below : ℕ → List Entry → Type 0
  Below n [] = Unit
  Below n (e ∷ es) = (matches access_ok name e ≡ true → score e < n) × Below n es

  NoMatch : List Entry → Type 0
  NoMatch [] = Unit
  NoMatch (e ∷ es) = (matches access_ok name e ≡ false) × NoMatch es

  -- The entry matches and scores more than each one before it that matches, and no less than
  -- each one behind.
  record IsBest (es : List Entry) (b : Entry) : Type 0 where
    before : List Entry
    after : List Entry
    stands : es ≡ before ++ b ∷ after
    fits : matches access_ok name b ≡ true
    above : Below (score b) before
    not_below : Below (suc (score b)) after

  -- The outcome that starts from a best entry `c`.
  abbrev Kept : Entry → List Entry → Type 0
  Kept c es =
      ((match_loop access_ok name (some c) es ≡ some c) × Below (suc (score c)) es)
      ⊎ ((b : Entry) × (match_loop access_ok name (some c) es ≡ some b)
          × (score c < score b)
          × IsBest es b)

  IsBest-cons :
      (e b : Entry) (es : List Entry)
      → (matches access_ok name e ≡ true → score e < score b)
      → IsBest es b
      → IsBest (e ∷ es) b
  unfolding Below
  IsBest-cons e b es h i = record {
    before = e ∷ i.before;
    after = i.after;
    stands = ap (◌∷◌ e) i.stands;
    fits = i.fits;
    above = (h, i.above);
    not_below = i.not_below;
  }

  IsBest-head :
      (e : Entry) (es : List Entry)
      → matches access_ok name e ≡ true
      → Below (suc (score e)) es
      → IsBest (e ∷ es) e
  unfolding Below
  IsBest-head e es m h = record {
    before = [];
    after = es;
    stands = refl;
    fits = m;
    above = tt;
    not_below = h;
  }

  match_loop-Kept : (c : Entry) (es : List Entry) → Kept c es
  unfolding match_loop Below
  match_loop-Kept c [] = inl (refl, tt)
  match_loop-Kept c (e ∷ es) =
      elim (Bool-cases (matches access_ok name e && ltb (score c) (score e))) [
        | inl hit ↦
            let fits : matches access_ok name e ≡ true = ground (arith, hit) in
            let more : score c < score e = ground (arith, hit) in
            rw hit elim (match_loop-Kept e es) [
              | inl (r, low) ↦ inr (e, r, more, IsBest-head e es fits low)
              | inr (b, r, up, best) ↦
                  inr (b, r, omega (arith, more, up), IsBest-cons e b es (λ m. up) best)
            ]
        | inr miss ↦
            let low : matches access_ok name e ≡ true → score e < suc (score c) =
              λ m. ground (arith, miss, m) in
            rw miss elim (match_loop-Kept c es) [
              | inl (r, rest) ↦ inl (r, (low, rest))
              | inr (b, r, up, best) ↦
                  inr (b, r, up, IsBest-cons e b es (λ m. omega (arith, low m, up)) best)
            ]
      ]

  -- The outcome of the search.
  Picked : List Entry → Option Bytes → Type 0
  Picked es none = NoMatch es
  Picked es (some p) = (b : Entry) × (p ≡ b.path) × IsBest es b

  Picked-cons :
      (e : Entry) (es : List Entry) (o : Option Bytes)
      → matches access_ok name e ≡ false
      → Picked es o
      → Picked (e ∷ es) o
  unfolding Picked NoMatch
  Picked-cons e es none m h = (m, h)
  Picked-cons e es (some p) m h =
      (h.0, h.1, IsBest-cons e h.0 es (λ fits. absurd (clash m fits)) h.2)

  find_frecency_match-Picked : (es : List Entry) → Picked es (find_frecency_match access_ok name es)
  unfolding find_frecency_match match_loop Picked NoMatch
  find_frecency_match-Picked [] = tt
  find_frecency_match-Picked (e ∷ es) = elim (Bool-cases (matches access_ok name e)) [
    | inl hit ↦ rw hit elim (match_loop-Kept e es) [
      | inl (r, low) ↦ rw r (e, refl, IsBest-head e es hit low)
      | inr (b, r, up, best) ↦ rw r (b, refl, IsBest-cons e b es (λ m. up) best)
    ]
    | inr miss ↦ rw miss (
        Picked-cons e es (find_frecency_match access_ok name es) miss
          (find_frecency_match-Picked es))
  ]

-- The name occurs in the path.
abbrev pub Occurs : Bytes → Bytes → Type 0
Occurs name path = (a : Bytes) × (b : Bytes) × (path ≡ a ++ (name ++ b))

has_prefix_sound : (s name : Bytes) → has_prefix s name ≡ true → (b : Bytes) × (s ≡ name ++ b)
unfolding has_prefix
has_prefix_sound s [] h = (s, refl)
has_prefix_sound [] (c ∷ cs) h = absurd (cc)
has_prefix_sound (a ∷ s) (c ∷ cs) h =
    let same : a ≡ c = ground (arith, h) in
    let rest = has_prefix_sound s cs (ground (arith, h)) in (rest.0, rw same (ap (◌∷◌ c) rest.1))

has_prefix_complete : (name b : Bytes) → has_prefix (name ++ b) name ≡ true
unfolding has_prefix
has_prefix_complete [] [] = refl
has_prefix_complete [] (c ∷ b) = refl
has_prefix_complete (c ∷ cs) b = ground (arith, has_prefix_complete cs b)

contains_prefix : (s name : Bytes) → has_prefix s name ≡ true → contains s name ≡ true
unfolding contains
contains_prefix [] name h = h
contains_prefix (a ∷ s) name h = rw h refl

contains_sound : (s name : Bytes) → contains s name ≡ true → Occurs name s
unfolding contains
contains_sound [] name h = let p = has_prefix_sound [] name h in ([], p.0, p.1)
contains_sound (a ∷ s) name h = elim (Bool-cases (has_prefix (a ∷ s) name)) [
  | inl e ↦ let p = has_prefix_sound (a ∷ s) name e in ([], p.0, p.1)
  | inr e ↦
      let rest = contains_sound s name (ground (arith, h, e)) in
      (a ∷ rest.0, rest.1, ap (◌∷◌ a) rest.2)
]

contains_complete : (a name b : Bytes) → contains (a ++ (name ++ b)) name ≡ true
unfolding contains
contains_complete [] name b = contains_prefix (name ++ b) name (has_prefix_complete name b)
contains_complete (c ∷ a) name b = ground (arith, contains_complete a name b)

-- A thousand for each visit, and the time of the last one.
abbrev pub worth : Entry → ℕ
worth e = 1000 * e.frequency + e.last_visit

unfoldable pub AllSmall : List Entry → Type 0
AllSmall [] = Unit
AllSmall (e ∷ es) = (worth e < 2 ^ 63) × AllSmall es

score-worth : (e : Entry) → worth e < 2 ^ 63 → score e ≡ worth e + 2 ^ 63
score-worth e h = omega (arith, h)

module _ (access_ok : Bytes → Bool) (name : Bytes) where
  -- The path of the entry exists and contains the name.
  abbrev pub Fits : Entry → Type 0
  Fits e = Occurs name e.path × (access_ok e.path ≡ true)

  matches-Fits : (e : Entry) → matches access_ok name e ≡ true → Fits e
  unfolding matches
  matches-Fits e h = (contains_sound e.path name (ground (arith, h)), ground (arith, h))

  Fits-matches : (e : Entry) → Fits e → matches access_ok name e ≡ true
  unfolding matches
  Fits-matches e ((a, b, s), there) =
      let held : contains e.path name ≡ true = rw s (contains_complete a name b) in
      ground (arith, held, there)

  -- Each entry that fits is worth less than `n`.
  pub AllBelow : ℕ → List Entry → Type 0
  AllBelow n [] = Unit
  AllBelow n (e ∷ es) = (Fits e → worth e < n) × AllBelow n es

  pub NoneFits : List Entry → Type 0
  NoneFits [] = Unit
  NoneFits (e ∷ es) = (Fits e → ⊥) × NoneFits es

  -- What the search gives: nothing if no entry fits, and else the path of one that fits, is worth
  -- more than each before it that fits, and no less than each behind.
  pub Chosen : List Entry → Option Bytes → Type 0
  Chosen es none = NoneFits es
  Chosen es (some p) =
      (before : List Entry) × (b : Entry) × (after : List Entry) × (es ≡ before ++ b ∷ after)
      × (p ≡ b.path)
      × Fits b
      × AllBelow (worth b) before
      × AllBelow (suc (worth b)) after

  NoMatch-NoneFits : (es : List Entry) → NoMatch access_ok name es → NoneFits es
  unfolding NoMatch NoneFits
  NoMatch-NoneFits [] h = tt
  NoMatch-NoneFits (e ∷ es) h = (λ fits. clash h.0 (Fits-matches e fits), NoMatch-NoneFits es h.1)

  Below-AllBelow :
      (n : ℕ) (es : List Entry) → AllSmall es → Below access_ok name (n + 2 ^ 63) es → AllBelow n es
  unfolding Below AllBelow AllSmall
  Below-AllBelow n [] small h = tt
  Below-AllBelow n (e ∷ es) small h = (
    λ fits. omega (arith, h.0 (Fits-matches e fits), score-worth e small.0),
    Below-AllBelow n es small.1 h.1,
  )

  AllSmall-split :
      (before : List Entry) (b : Entry) (after : List Entry)
      → AllSmall (before ++ b ∷ after)
      → AllSmall before × (worth b < 2 ^ 63) × AllSmall after
  unfolding AllSmall
  AllSmall-split [] b after h = (tt, h.0, h.1)
  AllSmall-split (e ∷ es) b after h =
      let rest = AllSmall-split es b after h.1 in ((h.0, rest.0), rest.1, rest.2)

  Picked-Chosen :
      (es : List Entry) (o : Option Bytes) → AllSmall es → Picked access_ok name es o → Chosen es o
  unfolding Picked Chosen
  Picked-Chosen es none small h = NoMatch-NoneFits es h
  Picked-Chosen es (some p) small (b, path, best) =
      let sizes = AllSmall-split best.before b best.after (subst AllSmall best.stands small) in
      let value = score-worth b sizes.1 in
      let above : suc (score b) ≡ suc (worth b) + 2 ^ 63 = omega (arith, value) in
      (
        best.before,
        b,
        best.after,
        best.stands,
        path,
        matches-Fits b best.fits,
        Below-AllBelow (worth b) best.before sizes.0
            (subst (λ n. Below access_ok name n best.before) value best.above),
        Below-AllBelow (suc (worth b)) best.after sizes.2
            (subst (λ n. Below access_ok name n best.after) above best.not_below),
      )

  -- When a thousand times the visits and the time of the last one stay below 2 ^ 63 for each entry,
  -- `find_frecency_match` fails exactly if no entry has an existing path in which the name occurs, and
  -- else gives the first of those entries for which that sum is highest.
  pub find_frecency_match-Chosen :
      (es : List Entry) → AllSmall es → Chosen es (find_frecency_match access_ok name es)
  find_frecency_match-Chosen es small =
      Picked-Chosen es (find_frecency_match access_ok name es) small
        (find_frecency_match-Picked access_ok name es)
