-- ===== src/Player/Load.antt =====
-- Loading files in src/player/PlaybackSession.cpp: `sameOrigin`, `updateChapterForPosition` and
-- `loadTrackForGlobal`.
use shelf_remote.Prelude.{
  true, false, none, some, [], List, if◌then◌else◌, Option, ℤ, Bool, ◌-ℤ◌, Chars, ◌&&◌, get_elem?,
  ℕ, str_eq, ◌==◌, drop, ◌∷◌, ◌+◌, length, ◌-◌, not,
}
use shelf_remote.Net.Endpoints.{Url, UrlLib, resolve_content_url}
use shelf_remote.Player.Mpv
use shelf_remote.Player.Effects.{Header, public, bearer, same_header, is_public, chapter_changed}
use shelf_remote.Player.Timeline.{Track, chapter_index_from, track_index_for_global}
use shelf_remote.Player.State.{Api, Player, ◌▷◌, emit, with_mpv}

unfoldable pub effective_port : UrlLib → Url → Option ℕ
effective_port lib u = elim u.port [
  | some n ↦ some n
  | none ↦
      let s = lib.lower u.scheme in
      if str_eq s "https" then some 443 else if str_eq s "http" then some 80 else none
]

abbrev pub same_port : Option ℕ → Option ℕ → Bool
same_port none none = true
same_port (some m) (some n) = m == n
same_port _ _ = false

unfoldable pub same_origin : UrlLib → Url → Url → Bool
unfolding effective_port
same_origin lib a b =
    lib.equal_fold a.scheme b.scheme
    && (lib.equal_fold a.host b.host && same_port (effective_port lib a) (effective_port lib b))

abbrev pub same_index : Option ℕ → Option ℕ → Bool
same_index = same_port

unfoldable pub update_chapter : ℤ → Player → Player
update_chapter seconds p =
    let i = chapter_index_from seconds 0 p.chapters in
    if same_index i p.chapter_index
    then p
    else record p { chapter_index = i } ▷ emit chapter_changed

-- The URL of a file, and the header that it may be fetched with: the token goes to the server's own
-- origin alone.
unfoldable pub content_url : Api → Track → Url
content_url api t = resolve_content_url api.lib api.base t.content_url

unfoldable pub auth_header : Api → Track → Header
unfolding content_url
auth_header api t =
    if same_origin api.lib (content_url api t) api.base then bearer api.access_token else public

-- The loop that queues the files that follow, up to the first with another header.
unfoldable pub queue_rest : Api → Header → List Track → List Chars
queue_rest api header [] = []
queue_rest api header (t ∷ ts) =
    let rest = queue_rest api header ts in
    if same_header (auth_header api t) header then api.lib.print (content_url api t) ∷ rest else []

-- The playlist for the files from the current one on, with its header.
unfoldable pub queue : Api → List Track → List Chars × Header
queue api [] = ([], public)
queue api (t ∷ ts) =
    let header = auth_header api t in
    (api.lib.print (content_url api t) ∷ queue_rest api header ts, header)

unfoldable pub in_file : Bool → ℤ → Track → ℤ
in_file hls seconds t = if hls then seconds else seconds -ℤ t.start_offset

unfoldable pub load_file_at : ℤ → Bool → ℕ → Track → Player → Player
unfolding in_file
load_file_at seconds autoplay i t p =
    let (urls, header) = queue p.api (drop i p.tracks) in
    let q =
      record p {
        current_track = some i;
        queued_through = some (i + length urls - 1);
        uses_auth = not (is_public header);
      }
      ▷ with_mpv (Mpv.load_playlist urls header (in_file p.is_hls seconds t)) in
    (if autoplay then q else with_mpv (Mpv.request_paused true) q) ▷ update_chapter seconds

unfoldable pub load_track_for_global : ℤ → Bool → Player → Player
load_track_for_global seconds autoplay p = elim (track_index_for_global p.tracks seconds) [
  | none ↦ p
  | some i ↦ elim (get_elem? p.tracks i) [ none ↦ p | some t ↦ load_file_at seconds autoplay i t p ]
]
