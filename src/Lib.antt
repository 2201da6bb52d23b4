-- ===== src/Lib.antt =====
-- ShelfRemote: a remote-control client for the Audiobookshelf server. This library models the parts
-- of it that keep state, and proves what makes them right.
--
-- Player (src/player): the playback session with what it drives. `Player` is the state of
-- `PlaybackSession`; Player/Events collects every entry to it (the events of libmpv, the timers, the
-- replies of the server, the keys) into one function `step`. Commands to libmpv, requests and signals
-- are appended to a log. Slots of other components do not run inside a step.
--   Player/Syncer    ProgressSyncer.cpp: the accumulator of listening time
--   Player/Mpv       MpvController.cpp: the wrapper of libmpv
--   Player/Timeline  the files and chapters on the timeline of the book
--   Player/Load, Seek, Sleep, Sync, Open, Events    PlaybackSession.cpp, by topic
--   Player/Mpris     MprisAdapter.cpp: the calls of D-Bus as operations of the session
-- Net (src/net): Net/Endpoints is the URL builder, which the player uses; Net/Client
-- is ApiClient.cpp: calls, the epoch of the base URL, the retry after a 401.
-- Auth (src/auth): Auth/TokenStore is TokenStore.cpp; its refresh is what a failed request waits for.
-- Auth/Manager is AuthManager.cpp, the states of the sign-in; the token store is a part of its state,
-- and what the token store signals is heard inside the step that made it.
--   Auth/Manager/Login, Oidc, Restore, Steps    by topic, and every input as one function `step`
--   Auth/Manager/Exchange, OwnSignIn, OwnBrowser, OwnRun    the sign-in by the browser in the log of
--                 requests
--   Auth/Pkce     Pkce.cpp: the state and the verifier of a sign-in by the browser
--   Auth/Saved    the token store put together with the secret store of Storage/SecureStore
--   Auth/Choice   the choice of the place of the sign-ins, over Auth/Saved and the secret store
-- Model (src/model): Bookmarks is BookmarkStore.cpp, Paging is LibraryItemsModel.cpp, Shelves is
-- ShelfModel.cpp with the entries of PlaylistModel.cpp, Progress is ProgressStore.cpp.
-- Storage (src/storage): CoverCache is CoverCache.cpp, SecureStore is SecureStore.cpp: the master
-- secret, the sealed blobs and the change of the place; Database is Database.cpp: the four tables, with
-- the statements on the servers and on the cache of items in Database/Servers and Database/Items.
-- Server (src/server): Server/Manager is ServerManager.cpp, over the tables of Storage/Database.
--   Server/Memory    what is kept for each server, as a function of its key: the abstract view
--   Server/Tables, Refinement, Listed    the tables against that view, and the list that is shown
-- App (src/app): Backend is Backend.cpp, which owns the models of Model/Shelves, Model/Paging and
-- Model/Progress and decides which replies they see; Frames is the part of Application.cpp by which a
-- second start hands a URI to the first, and Start the part that decides which start runs, with
-- UriHandler.cpp; Settings is AppSettings.cpp; Log is DebugLog.cpp with the message handler of main.cpp;
-- Program is the part of main.cpp by which the components hear each other.
--
-- Times are whole milliseconds, as naturals where the source never goes below zero and as integers
-- elsewhere: the arithmetic of `double` is taken as exact. `QUrl` is a parameter, the record `UrlLib`.
-- JSON values are records of what the code reads from them. OpenSSL is the parameter `Crypto`, with the
-- promise of an authenticated cipher (`IsAead`); the portal, the key file and the random bytes are an
-- argument of each operation, the record `World`. Loops are by recursion on a list, but for `drain` of
-- App/Frames: its fuel is the length of the buffer, of which each turn takes five bytes or more.
-- A table of the database is a dictionary in the order of `rowid`; the clock of a statement is an argument.
-- Rates are thousandths. On D-Bus a position is in microseconds, of which whole milliseconds are sought.
-- Not modelled: the QML interface, the construction of objects in main.cpp, the names of
-- directories (AppConfig.cpp), the start of libmpv and its list of audio devices, the text of a log line
-- and the copy of the log, the D-Bus calls of the portal, the sending on the bus, and the nested event loop
-- of a blocking close.
pub mod Prelude
pub mod Net
pub mod Auth
pub mod Model
pub mod Storage
pub mod Server
pub mod Player
pub mod App
