-- ===== src/Proxy/Main.antt =====
-- cmd/sshproxy/main.go: the way from the database to a server, and the end of `main`.
pub mod Started
use hassh.Common.{Bool, Option, none, some, List, [], ◌∷◌, Result, ok, err, panics}
use hassh.Text.{Bytes}
use hassh.Storage.Database.Replies.{DbError, Reply, done, failed}
use hassh.Storage.Database.{Database}
use hassh.Storage.Repository.{load_blocked_hashes}
use hassh.Storage.Setup.{Schema, new_repository}
use hassh.Proxy.Reader.{Conn}
use hassh.Proxy.Lifecycle.{Server, StartError, new_server}

-- What `log.Fatalf` ends the program with.
pub data MainError : Type 0 where
  open_failed : MainError
  repository_failed : DbError → MainError
  server_failed : StartError → MainError

-- What `Start` returns: the error of `net.Listen`, or `ctx.Err()`.
pub data StopError : Type 0 where
  listen_failed : StopError
  canceled : StopError

pub data LogLine : Type 0 where
  server_error : LogLine
  shutdown_complete : LogLine

-- `if err != nil && err != context.Canceled`
abbrev pub last_lines : StopError → List LogLine
last_lines listen_failed = server_error ∷ shutdown_complete ∷ []
last_lines canceled = shutdown_complete ∷ []

-- `none` is an error.
abbrev pub hashes_of : Reply (List Bytes) → Option (List Bytes)
hashes_of (done hashes) = some hashes
hashes_of (failed e) = none

module _ (D : Database) where
  abbrev pub served : Result StartError Server → D.State → Result MainError (Server × D.State)
  served (ok server) s = ok (server, s)
  served (err e) s = err (server_failed e)
  served panics s = panics

  -- `proxy.NewServer`, with its load of the blocklist from the repository.
  abbrev pub with_repository :
      Option Conn → Bool → Reply (Unit {0}) × D.State → Result MainError (Server × D.State)
  with_repository probe connected (failed e, s) = err (repository_failed e)
  with_repository probe connected (done _, s) =
      served (new_server probe connected (hashes_of (load_blocked_hashes D s).0))
        (load_blocked_hashes D s).1

  -- The server that `main` starts; `none` is a database that does not open.
  unfoldable pub start_proxy :
      Option D.State → Schema D.State → Option Conn → Bool → Result MainError (Server × D.State)
  unfolding new_repository new_server load_blocked_hashes
  start_proxy none M probe connected = err open_failed
  start_proxy (some s) M probe connected = with_repository probe connected (new_repository M s)
