-- ===== src/App/Log.antt =====
-- src/app/DebugLog.cpp with the message handler of src/main.cpp: the debug log and its backup. A file
-- is its size, and none where there is no file; that the files can be opened and renamed is assumed.
use shelf_remote.Prelude.{
  [], ◌∷◌, none, some, true, arith, if◌then◌else◌, List, Option, ℕ, ◌≡◌, ◌≤◌, ◌*◌, Bool, ltb, ◌+◌,
  leb, if_elim, ◌&&◌,
}

abbrev pub max_log_bytes : ℕ
max_log_bytes = 1 * 1024 * 1024

pub record Log : Type 0 where
  pub file : Option ℕ
  pub backup : Option ℕ

-- `remove(backup)` and `rename(path, backup)`; without a log there is nothing to rename.
unfoldable pub rotate : Log → Log
rotate l = record { file = none; backup = l.file }

abbrev pub size_of : Option ℕ → ℕ
size_of none = 0
size_of (some n) = n

unfoldable pub rotate_if_large : Log → Log
rotate_if_large l = elim l.file [ none ↦ l | some n ↦ if ltb max_log_bytes n then rotate l else l ]

-- A line of `n` bytes.
unfoldable pub log_line : ℕ → Log → Log
log_line n l =
    let size = size_of l.file + n in
    let q = record l { file = some size } in if ltb max_log_bytes size then rotate q else q

unfoldable pub log_all : List ℕ → Log → Log
log_all [] l = l
log_all (n ∷ ns) l = log_all ns (log_line n l)

-- `main` before it installs the handler, and the messages after.
unfoldable pub run : List ℕ → Log → Log
run lines l = log_all lines (rotate_if_large l)

unfoldable pub all_within : ℕ → List ℕ → Bool
all_within longest [] = true
all_within longest (n ∷ ns) = leb n longest && all_within longest ns

record IsBounded (longest : ℕ) (l : Log) : Type 0 where
  file : size_of l.file ≤ max_log_bytes
  backup : size_of l.backup ≤ max_log_bytes + longest

log_line-IsBounded :
    (longest n : ℕ) (l : Log) → n ≤ longest → IsBounded longest l → IsBounded longest (log_line n l)
unfolding log_line rotate
log_line-IsBounded longest n l h v =
    if_elim (IsBounded longest) (ltb max_log_bytes (size_of l.file + n))
      (λ e. record { file = omega arith; backup = omega (arith, v.file) })
      λ e. record { file = ground (arith, e); backup = v.backup }

log_all-IsBounded :
    (longest : ℕ) (lines : List ℕ) (l : Log)
    → all_within longest lines ≡ true
    → IsBounded longest l
    → IsBounded longest (log_all lines l)
unfolding log_all all_within
log_all-IsBounded longest [] l h v = v
log_all-IsBounded longest (n ∷ ns) l h v =
    log_all-IsBounded longest ns (log_line n l) (ground (arith, h))
      (log_line-IsBounded longest n l (ground (arith, h)) v)

rotate_if_large-IsBounded :
    (longest : ℕ) (file backup : Option ℕ)
    → size_of file ≤ max_log_bytes + longest
    → size_of backup ≤ max_log_bytes + longest
    → IsBounded longest (rotate_if_large (record { file = file; backup = backup }))
unfolding rotate_if_large rotate
rotate_if_large-IsBounded longest none backup f b = record { file = omega arith; backup = b }
rotate_if_large-IsBounded longest (some n) backup f b =
    if_elim (IsBounded longest) (ltb max_log_bytes n)
      (λ e. record { file = omega arith; backup = f })
      λ e. record { file = ground (arith, e); backup = b }

-- However many lines are written in a run that starts with a log within a line of the limit, the log
-- stays within the limit and its backup within a line of it. No line is longer than `longest`.
pub run-bounded :
    (longest : ℕ) (lines : List ℕ) (l : Log)
    → all_within longest lines ≡ true
    → size_of l.file ≤ max_log_bytes + longest
    → size_of l.backup ≤ max_log_bytes + longest
    → let q = run lines l in
      (size_of q.file ≤ max_log_bytes) × (size_of q.backup ≤ max_log_bytes + longest)
unfolding run
run-bounded longest lines l h f b =
    let v =
      log_all-IsBounded longest lines (rotate_if_large l) h
        (rotate_if_large-IsBounded longest l.file l.backup f b) in
    (v.file, v.backup)
