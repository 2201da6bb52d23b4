-- ===== src/App/Program.antt =====
-- src/main.cpp: what the components do at each other's signals. The slots run here one after the other,
-- the oldest signal first; `authenticated` is the answer of the sign-in at that time.
pub mod SignOut
pub mod Examples
use shelf_remote.Storage.Database.{ServerRow}
use shelf_remote.Player.Sync.{stop_and_close}
use shelf_remote.App.Backend.Replies.{reset, load_libraries}
use shelf_remote.Prelude.{
  none, some, true, false, [], ◌∷◌, String, Option, Bool, Chars, if◌then◌else◌, not, ◌||◌, ℤ, List,
  is_empty, ℕ, ◌&&◌,
}
use shelf_remote.App.Backend.{Backend, on_progress_changed}
use shelf_remote.Model.Bookmarks
use shelf_remote.Model.Progress
use shelf_remote.Model.Progress.{update, ProgressJson}
use shelf_remote.Model.Bookmarks.{BookmarkJson}
use shelf_remote.Server.Manager.{Manager, UrlTexts, save_server}
use shelf_remote.App.Backend.{Linked}
use shelf_remote.Storage.Database.Servers.{servers}
use shelf_remote.Player.State.{Player}

-- What the program is linked with, and the two clocks: of the progress and of the list of servers.
pub record Parts : Type 0 where
  pub linked : Linked
  pub urls : UrlTexts
  pub text : Chars → String
  pub now : ℤ
  pub seconds : ℕ

pub record Program : Type 0 where
  pub player : Player
  pub library : Backend
  pub bookmarks : Bookmarks.Store
  pub servers : Manager

-- The slot of `activeChanged` for the progress of the item.
unfoldable pub on_active_changed : Parts → Player → Backend → Backend
on_active_changed x p b =
    if p.active || not (is_empty p.episode_id)
    then b
    else on_progress_changed x.linked
        (update x.now (x.text p.item_id) p.global_position p.duration p.completed b.progress) b

-- `stopAndClose`, with that slot where a session was open.
unfoldable pub stop_playback : Parts → Program → Program
stop_playback x g =
    let p = stop_and_close g.player in
    record g {
      player = p;
      library = if g.player.active then on_active_changed x p g.library else g.library;
    }

-- The slot of `sessionEnding`.
unfoldable pub on_session_ending : Parts → Program → Program
on_session_ending x g =
    let q = stop_playback x g in
    let b = reset x.linked q.library in
    record q {
      library = on_progress_changed x.linked (Progress.clear b.progress) b;
      bookmarks = Bookmarks.clear q.bookmarks;
    }

-- The slot of `stateChanged`.
unfoldable pub on_state_changed : Parts → Bool → Program → Program
on_state_changed x authenticated g =
    if not authenticated && g.player.active then stop_playback x g else g

-- What the user's object holds.
pub record UserJson : Type 0 where
  pub id : String
  pub progress : List ProgressJson
  pub bookmarks : List BookmarkJson

-- The two slots of `authenticated`.
unfoldable pub on_authenticated : Parts → UserJson → Program → Program
on_authenticated x user g =
    let b = reset x.linked g.library in
    let c = on_progress_changed x.linked (Progress.load_from_user user.progress b.progress) b in
    record g {
      library = load_libraries x.linked c;
      bookmarks = Bookmarks.load_from_user user.bookmarks g.bookmarks;
      servers = save_server x.urls x.seconds c.base c.base.host user.id g.servers;
    }

-- A signal of the sign-in that others hear.
pub data Heard : Type 0 where
  state_changed session_ending : Heard
  authenticated_as : UserJson → Heard

unfoldable pub hear : Parts → Bool → Heard → Program → Program
hear x authenticated state_changed g = on_state_changed x authenticated g
hear x authenticated session_ending g = on_session_ending x g
hear x authenticated (authenticated_as user) g = on_authenticated x user g

-- The newest first.
unfoldable pub hear_all : Parts → Bool → List Heard → Program → Program
hear_all x authenticated [] g = g
hear_all x authenticated (n ∷ ns) g = hear x authenticated n (hear_all x authenticated ns g)

-- The server that is taken up again at the start: the first of the list.
unfoldable pub last_used_server : Manager → Option (String × ServerRow)
last_used_server m = elim (servers m.db) [ [] ↦ none | row ∷ rows ↦ some row ]
