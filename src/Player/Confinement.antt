-- ===== src/Player/Confinement.antt =====
-- Who is given the bearer token.
use shelf_remote.Net.Endpoints.{Url, UrlLib}
use shelf_remote.Prelude.{
  ℕ, ◌≢◌, Option, some, none, str_eq, if◌then◌else◌, refl, inl, inr, ap, subst, true, false, arith,
  [], List, ◌≡◌, String, Chars, All, eq_iff, ◌∷◌, if_elim, ◌⊎◌,
}
use shelf_remote.Player.Effects.{Header, public, bearer, same_header}
use shelf_remote.Player.Timeline.{Track}
use shelf_remote.Player.State.{Api, Player}
use shelf_remote.Player.Load.{
  same_port, effective_port, same_origin, content_url, auth_header, queue_rest, queue,
}
use shelf_remote.Player.Events.{on_access_token}

-- The URL is that of one of the files, and the file may be fetched with the header.
abbrev pub IsFetchedWith : Api → Header → List Track → Chars → Type 0
IsFetchedWith api h [] url = ⊥
IsFetchedWith api h (t ∷ ts) url =
    ((url ≡ api.lib.print (content_url api t)) × (auth_header api t ≡ h))
    ⊎ IsFetchedWith api h ts url

same_header_eq : (g h : Header) → same_header g h ≡ true → g ≡ h
same_header_eq public public e = refl
same_header_eq public (bearer t) e = cc
same_header_eq (bearer s) public e = cc
same_header_eq (bearer s) (bearer t) e = ap bearer ((eq_iff s t).0 e)

All-later :
    (api : Api) (h : Header) (t : Track) (ts : List Track) (urls : List Chars)
    → All (IsFetchedWith api h ts) urls
    → All (IsFetchedWith api h (t ∷ ts)) urls
All-later api h t ts [] a = tt
All-later api h t ts (u ∷ us) (a, b) = (inr a, All-later api h t ts us b)

queue_rest-fetched :
    (api : Api) (h : Header) (ts : List Track) → All (IsFetchedWith api h ts) (queue_rest api h ts)
unfolding queue_rest
queue_rest-fetched api h [] = tt
queue_rest-fetched api h (t ∷ ts) =
    if_elim (All (IsFetchedWith api h (t ∷ ts))) (same_header (auth_header api t) h)
      (λ e. (
        inl (refl, same_header_eq (auth_header api t) h e),
        All-later api h t ts (queue_rest api h ts) (queue_rest-fetched api h ts),
      ))
      (λ _. tt)

-- Every URL of the playlist that `loadTrackForGlobal` builds is the URL of a file that the policy
-- allows to be fetched with the playlist's header.
pub queue-fetched :
    (api : Api) (ts : List Track)
    → let (urls, header) = queue api ts in All (IsFetchedWith api header ts) urls
unfolding queue
queue-fetched api [] = tt
queue-fetched api (t ∷ ts) = (
  inl (refl, refl),
  All-later api (auth_header api t) t ts (queue_rest api (auth_header api t) ts)
      (queue_rest-fetched api (auth_header api t) ts),
)

-- The port of a URL: the one that it names, else the one that its scheme stands for.
abbrev pub HasPort : UrlLib → Url → ℕ → Type 0
HasPort lib u n =
    (u.port ≡ some n)
    ⊎ ((u.port ≡ none)
        × (((lib.lower u.scheme ≡ "https") × (n ≡ 443))
            ⊎ ((lib.lower u.scheme ≡ "http") × (n ≡ 80))))

abbrev pub HasNoPort : UrlLib → Url → Type 0
HasNoPort lib u = (u.port ≡ none) × (lib.lower u.scheme ≢ "https") × (lib.lower u.scheme ≢ "http")

-- The origins of RFC 6454: the scheme, the host and the port agree, the first two without regard to case.
pub record SharesOrigin (lib : UrlLib) (u v : Url) : Type 0 where
  pub scheme : lib.equal_fold u.scheme v.scheme ≡ true
  pub host : lib.equal_fold u.host v.host ≡ true
  pub port : ((n : ℕ) × HasPort lib u n × HasPort lib v n) ⊎ (HasNoPort lib u × HasNoPort lib v)

-- What the code takes for the port.
abbrev IsPortOf : UrlLib → Url → Option ℕ → Type 0
IsPortOf lib u none = HasNoPort lib u
IsPortOf lib u (some n) = HasPort lib u n

default_port :
    (lib : UrlLib) (u : Url)
    → u.port ≡ none
    → let s = lib.lower u.scheme in
      IsPortOf lib u
        (if str_eq s "https" then some 443 else if str_eq s "http" then some 80 else none)
default_port lib u absent =
    let s = lib.lower u.scheme in
    if_elim (IsPortOf lib u) (str_eq s "https")
      (λ e. inr (absent, inl ((eq_iff s "https").0 e, refl)))
      λ other.
        if_elim (IsPortOf lib u) (str_eq s "http")
          (λ e. inr (absent, inr ((eq_iff s "http").0 e, refl)))
          λ neither. (
            absent,
            λ e. absurd (ground (arith, other, (eq_iff s "https").1 e)),
            λ e. absurd (ground (arith, neither, (eq_iff s "http").1 e)),
          )

port_of : UrlLib → Url → Option ℕ → Option ℕ
port_of lib u o = elim o [
  | some n ↦ some n
  | none ↦
      let s = lib.lower u.scheme in
      if str_eq s "https" then some 443 else if str_eq s "http" then some 80 else none
]

port_of-IsPortOf :
    (lib : UrlLib) (u : Url) (o : Option ℕ) → u.port ≡ o → IsPortOf lib u (port_of lib u o)
unfolding port_of
port_of-IsPortOf lib u none e = default_port lib u e
port_of-IsPortOf lib u (some n) e = inl e

effective_port-IsPortOf : (lib : UrlLib) (u : Url) → IsPortOf lib u (effective_port lib u)
unfolding effective_port port_of
effective_port-IsPortOf lib u = port_of-IsPortOf lib u u.port refl

both_ports :
    (lib : UrlLib) (u v : Url) (m n : Option ℕ)
    → IsPortOf lib u m
    → IsPortOf lib v n
    → same_port m n ≡ true
    → ((k : ℕ) × HasPort lib u k × HasPort lib v k) ⊎ (HasNoPort lib u × HasNoPort lib v)
both_ports lib u v none none a b h = inr (a, b)
both_ports lib u v (some m) (some n) a b h =
    let e : n ≡ m = ground (arith, h) in inl (m, a, subst (HasPort lib v) e b)
both_ports lib u v none (some n) a b h = absurd cc
both_ports lib u v (some m) none a b h = absurd cc

same_origin-SharesOrigin :
    (lib : UrlLib) (u v : Url) → same_origin lib u v ≡ true → SharesOrigin lib u v
unfolding same_origin
same_origin-SharesOrigin lib u v h = record {
  scheme = ground arith;
  host = ground arith;
  port =
      both_ports lib u v (effective_port lib u) (effective_port lib v)
        (effective_port-IsPortOf lib u) (effective_port-IsPortOf lib v) (ground arith);
}

-- The URL is that of a file whose URL has the origin of the server.
abbrev pub IsOwn : Api → List Track → Chars → Type 0
IsOwn api [] url = ⊥
IsOwn api (t ∷ ts) url =
    ((url ≡ api.lib.print (content_url api t)) × SharesOrigin api.lib (content_url api t) api.base)
    ⊎ IsOwn api ts url

own_file :
    (api : Api) (token : String) (t : Track)
    → auth_header api t ≡ bearer token
    → SharesOrigin api.lib (content_url api t) api.base
unfolding auth_header
own_file api token t h =
    same_origin-SharesOrigin api.lib (content_url api t) api.base (ground arith)

IsOwn-of_fetched :
    (api : Api) (token : String) (ts : List Track) (url : Chars)
    → IsFetchedWith api (bearer token) ts url
    → IsOwn api ts url
IsOwn-of_fetched api token [] url f = f
IsOwn-of_fetched api token (t ∷ ts) url (inl (e, a)) = inl (e, own_file api token t a)
IsOwn-of_fetched api token (t ∷ ts) url (inr f) = inr (IsOwn-of_fetched api token ts url f)

All-IsOwn :
    (api : Api) (token : String) (ts : List Track) (urls : List Chars)
    → All (IsFetchedWith api (bearer token) ts) urls
    → All (IsOwn api ts) urls
All-IsOwn api token ts [] a = tt
All-IsOwn api token ts (u ∷ us) (a, b) =
    (IsOwn-of_fetched api token ts u a, All-IsOwn api token ts us b)

-- A playlist that is loaded with the bearer token holds only URLs of files at the server's own
-- origin: the scheme and the host are those of the server's base URL but for case, and so is the port, where a URL
-- without one has that of its scheme.
pub queue-IsOwn :
    (api : Api) (ts : List Track) (token : String)
    → (queue api ts).1 ≡ bearer token
    → All (IsOwn api ts) (queue api ts).0
queue-IsOwn api ts token e =
    All-IsOwn api token ts (queue api ts).0
      (subst (λ h. All (IsFetchedWith api h ts) (queue api ts).0) e (queue-fetched api ts))

-- A new token reaches mpv only while a session plays a playlist that was loaded with the token;
-- otherwise the log of commands stays as it is.
pub on_access_token_public :
    (token : String) (p : Player)
    → (p.active ≡ true → p.uses_auth ≡ false)
    → (on_access_token token p).out ≡ p.out
unfolding on_access_token
on_access_token_public token p h = ground arith
