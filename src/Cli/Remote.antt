-- ===== src/Cli/Remote.antt =====
-- The resolution of a remote in internal/cli/common.go.
use tailjump.Prelude.{not, Option, none, some, Outcome, ok, ◌>>=◌, wrap, if◌then◌else◌, List, []}
use tailjump.Text.{Text, str, is_empty}
use tailjump.Net.{Addr}
use tailjump.Tailnet.{Peer, ResolveError, ipv4, resolve}
use tailjump.Config.{Config, RemoteConfig, remote_of}

-- The host and the user of an alias; any other reference is itself a hostname or a tag. An entry
-- that is missing has no host.
unfoldable pub resolve_alias : Config → Text → Text × Text
resolve_alias cfg ref =
    let rc = remote_of cfg.remotes ref in if is_empty rc.host then (ref, []) else (rc.host, rc.user)

abbrev local_or_root : Option Text → Text
local_or_root none = str "root"
local_or_root (some name) = if is_empty name then str "root" else name

-- `local` is the name that user.Current gives.
unfoldable pub ssh_user : Option Text → Text → Text → Config → Text
ssh_user local flag_user remote_user cfg =
    if not (is_empty flag_user)
    then flag_user
    else if not (is_empty remote_user)
    then remote_user
    else if not (is_empty cfg.defaults.user)
    then cfg.defaults.user
    else local_or_root local

pub record ResolvedRemote : Type 0 where
  pub peer : Peer
  pub addr : Addr
  pub user : Text
  pub config : RemoteConfig
  pub ref : Text

pub data RemoteError : Type 0 where
  tailnet_status no_address : Text → RemoteError
  no_peer : ResolveError → RemoteError

-- `status` is what Client.Status of the tailnet gives.
unfoldable pub resolve_remote :
    Option Text
    → Outcome Text (List Peer)
    → Config
    → Text
    → Text
    → Outcome RemoteError ResolvedRemote
resolve_remote local status cfg ref flag_user =
    let alias = resolve_alias cfg ref in
    wrap tailnet_status status >>= λ peers. wrap no_peer (resolve peers alias.0) >>= λ peer.
    wrap no_address (ipv4 peer) >>= λ addr. ok (record {
      peer = peer;
      addr = addr;
      user = ssh_user local flag_user alias.1 cfg;
      config = remote_of cfg.remotes ref;
      ref = alias.0;
    })
