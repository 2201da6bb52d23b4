-- ===== src/Storage/CoverCache.antt =====
-- src/storage/CoverCache.h and .cpp. A path is the text that `diskPath` gives, which is a hash and a
-- parameter; the disk is the list of its files, oldest first. A request is an entry of the log. A file
-- can always be written; whether one can be removed is the argument `removable`.
use shelf_remote.Prelude.{
  ℕ, true, false, none, some, arith, [], ◌≤◌, String, Bool, List, ◌≡◌, ◌∷◌, if◌then◌else◌, contains,
  Option, remove_key, ◌+◌, ◌-◌, str_eq, ◌||◌, ◌++◌, ◌==◌, leb, ◌&&◌, eq_iff, not, refl, ap, subst,
  if_elim,
}

pub data Kind : Type 0 where
  item author : Kind

pub record File : Type 0 where
  pub path : String
  pub size : ℕ

pub data Notice : Type 0 where
  requested : Kind → String → ℕ → ℕ → Notice
  cover_ready : String → String → Notice

pub record Cache : Type 0 where
  pub in_flight : List String
  pub missing : List String
  pub disk : List File
  pub out : List Notice

-- `diskPath`, by kind, id, width and height, for the server of the client.
abbrev pub Paths : Type 0
Paths = Kind → String → ℕ → ℕ → String

unfoldable pub exists : String → List File → Bool
exists path [] = false
exists path (f ∷ fs) = str_eq f.path path || exists path fs

unfoldable pub fetch : Paths → Kind → String → ℕ → ℕ → Cache → Cache
fetch disk_path kind id width height c =
    let path = disk_path kind id width height in
    if contains c.in_flight path || contains c.missing path
    then c
    else record c { in_flight = path ∷ c.in_flight; out = requested kind id width height ∷ c.out }

-- `localUrl` and `authorImage`: the path, or nothing and a fetch.
unfoldable pub url_of : Paths → Kind → String → ℕ → ℕ → Cache → Cache × Option String
unfolding fetch
url_of disk_path kind id width height c =
    let path = disk_path kind id width height in
    if exists path c.disk then (c, some path) else (fetch disk_path kind id width height c, none)

abbrev pub local_url : Paths → String → ℕ → ℕ → Cache → Cache × Option String
local_url disk_path id width height c = url_of disk_path item id width height c

abbrev pub author_image : Paths → String → ℕ → ℕ → Cache → Cache × Option String
author_image disk_path id width height c = url_of disk_path author id width height c

-- A reply, with the length of its body.
pub record Reply : Type 0 where
  pub stale : Bool
  pub ok : Bool
  pub status : ℕ
  pub size : ℕ

abbrev pub without : String → List File → List File
without path [] = []
without path (f ∷ fs) = if str_eq f.path path then without path fs else f ∷ without path fs

unfoldable pub on_reply : String → String → Reply → Cache → Cache
on_reply id path res c0 =
    let c = record c0 { in_flight = remove_key path c0.in_flight } in
    if res.stale
    then c
    else if res.status == 404 || (res.ok && res.size == 0)
    then record c { missing = path ∷ c.missing }
    else if not res.ok
    then c
    else record c {
      disk = without path c.disk ++ (record { path = path; size = res.size }) ∷ [];
      out = cover_ready id path ∷ c.out;
    }

unfoldable pub cache_size : List File → ℕ
cache_size [] = 0
cache_size (f ∷ fs) = f.size + cache_size fs

-- The loop of `pruneToLimit`: stops at the first file that need not go.
unfoldable pub prune_loop : (String → Bool) → ℕ → ℕ → List File → List File
prune_loop removable limit total [] = []
prune_loop removable limit total (f ∷ fs) =
    let gone = prune_loop removable limit (total - f.size) fs in
    let kept = prune_loop removable limit total fs in
    if leb total limit then f ∷ fs else if removable f.path then gone else f ∷ kept

-- A negative limit is no limit, and is not an argument here.
unfoldable pub prune_to_limit : (String → Bool) → ℕ → Cache → Cache
prune_to_limit removable limit c = record c {
  disk = prune_loop removable limit (cache_size c.disk) c.disk;
}

unfoldable pub clear_cache : Cache → Cache
clear_cache c = record c { missing = []; disk = [] }

prune_loop-size :
    (limit : ℕ) (fs : List File)
    → cache_size (prune_loop (λ f. true) limit (cache_size fs) fs) ≤ limit
unfolding prune_loop cache_size
prune_loop-size limit [] = omega arith
prune_loop-size limit (f ∷ fs) =
    let rest = f.size + cache_size fs - f.size in
    let same : cache_size fs ≡ rest = omega arith in
    if_elim (λ l. cache_size l ≤ limit) (leb (f.size + cache_size fs) limit) (λ fits. ground arith)
      λ _.
        subst (λ n. cache_size (prune_loop (λ f'. true) limit n fs) ≤ limit) same
          (prune_loop-size limit fs)

-- The files that stay are the newest: `kept` is the end of the list of all.
abbrev pub IsEnd : List File → List File → Type 0
IsEnd kept fs = (gone : List File) × (fs ≡ gone ++ kept)

prune_loop-IsEnd :
    (limit total : ℕ) (fs : List File) → IsEnd (prune_loop (λ f. true) limit total fs) fs
unfolding prune_loop
prune_loop-IsEnd limit total [] = ([], refl)
prune_loop-IsEnd limit total (f ∷ fs) =
    if_elim (λ l. IsEnd l (f ∷ fs)) (leb total limit) (λ _. ([], refl))
      λ _.
        let (gone, e) = prune_loop-IsEnd limit (total - f.size) fs in (f ∷ gone, ap (λ l. f ∷ l) e)

-- When every file can be removed, pruning leaves at most `limit` bytes, and the files that go are the
-- oldest: those that stay are the end of the list.
pub prune_to_limit-fits :
    (limit : ℕ) (c : Cache)
    → let q = prune_to_limit (λ f. true) limit c in
      (cache_size q.disk ≤ limit) × IsEnd q.disk c.disk
unfolding prune_to_limit
prune_to_limit-fits limit c =
    (prune_loop-size limit c.disk, prune_loop-IsEnd limit (cache_size c.disk) c.disk)

-- After a call of `fetch` the path is in flight or known to have no image, and then a second call
-- changes nothing: no path is asked for twice.
pub fetch-once :
    (disk_path : Paths) (kind : Kind) (id : String) (width height : ℕ) (c : Cache)
    → let path = disk_path kind id width height in
      let q = fetch disk_path kind id width height c in
      (contains q.in_flight path || contains q.missing path ≡ true)
      × (fetch disk_path kind id width height q ≡ q)
unfolding fetch contains
fetch-once disk_path kind id width height c =
    let path = disk_path kind id width height in ground (arith, eq_iff path path)

-- The server's answer that it has no image for a path is remembered when the reply is current: no
-- later call asks for the path again.
pub missing-remembered :
    (disk_path : Paths) (kind : Kind) (id : String) (width height : ℕ) (res : Reply) (c : Cache)
    → res.stale ≡ false
    → res.status ≡ 404
    → let q = on_reply id (disk_path kind id width height) res c in
      fetch disk_path kind id width height q ≡ q
unfolding fetch contains on_reply
missing-remembered disk_path kind id width height res c current none_there =
    let path = disk_path kind id width height in ground (arith, eq_iff path path)
