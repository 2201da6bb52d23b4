-- ===== src/Net/Endpoints/Paths.antt =====
-- The base URL is kept free of slashes at its end, and every URL stays below it.
use shelf_remote.Prelude.{
  ℕ, Chars, ◌∷◌, All, ◌≡◌, if◌then◌else◌, ◌≢◌, is_empty, [], arith, ◌++◌, ◌&&◌, ◌==◌, Bool-cases,
  refl, inl, inr, ap,
}
use shelf_remote.Net.Endpoints.{Url, chop_slashes, set_base}

-- The path does not end in a slash.
abbrev pub IsBare : Chars → Type 0
IsBare [] = Unit {0}
IsBare (c ∷ []) = c ≢ b'/'
IsBare (c ∷ d ∷ cs) = IsBare (d ∷ cs)

IsBare-cons : (c : ℕ) (cs : Chars) → cs ≢ [] → IsBare cs → IsBare (c ∷ cs)
IsBare-cons c [] n b = absurd (n refl)
IsBare-cons c (d ∷ cs) n b = b

chop_slashes-IsBare : (cs : Chars) → IsBare (chop_slashes cs)
unfolding chop_slashes
chop_slashes-IsBare [] = tt
chop_slashes-IsBare (c ∷ cs) = head (chop_slashes cs) (chop_slashes-IsBare cs)
  where
    head :
        (rest : Chars) → IsBare rest → IsBare (if is_empty rest && c == b'/' then [] else c ∷ rest)
    head [] b = elim (Bool-cases (c == b'/')) [ inl e ↦ rw e tt | inr e ↦ rw e (ground arith) ]
    head (d ∷ ds) b = b

-- A path that already ends in no slash is kept.
chop_slashes-bare : (cs : Chars) → IsBare cs → chop_slashes cs ≡ cs
unfolding chop_slashes
chop_slashes-bare [] b = refl
chop_slashes-bare (c ∷ []) b = ground arith
chop_slashes-bare (c ∷ d ∷ cs) b = rw (chop_slashes-bare (d ∷ cs) b)

-- What `setBase` chops is slashes alone: the path it was given is its result and slashes.
abbrev pub AllSlashes : Chars → Type 0
AllSlashes = All λ c. c ≡ b'/'

chop_slashes_rest : (cs : Chars) → (s : Chars) × (cs ≡ chop_slashes cs ++ s) × AllSlashes s
unfolding chop_slashes
chop_slashes_rest [] = ([], refl, tt)
chop_slashes_rest (c ∷ cs) = head (chop_slashes cs) (chop_slashes_rest cs)
  where
    head :
        (rest : Chars)
        → (s : Chars) × (cs ≡ rest ++ s) × AllSlashes s
        → (s : Chars) × (c ∷ cs ≡ (if is_empty rest && c == b'/' then [] else c ∷ rest) ++ s)
          × AllSlashes s
    head [] (s, e, h) = elim (Bool-cases (c == b'/')) [
      | inl slash ↦ (c ∷ cs, rw slash refl, (ground arith, rw e h))
      | inr other ↦ (s, rw (other, ← e) refl, h)
    ]
    head (d ∷ ds) (s, e, h) = (s, ap (◌∷◌ c) e, h)

-- `setBase` leaves a base path without a slash at its end, and only slashes are lost; setting the
-- same base once more changes nothing.
pub set_base_lem :
    (u : Url)
    → IsBare (set_base u).path
      × ((s : Chars) × (u.path ≡ (set_base u).path ++ s) × AllSlashes s)
      × (set_base (set_base u) ≡ set_base u)
unfolding set_base
set_base_lem u = (
  chop_slashes-IsBare u.path,
  chop_slashes_rest u.path,
  ap (λ p. record u { path = p; query = []; fragment = [] })
      (chop_slashes-bare (chop_slashes u.path) (chop_slashes-IsBare u.path)),
)
