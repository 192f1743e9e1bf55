-- ===== src/CommandLine/Program.antt =====
-- cmd/metalbond/main.go: the commands `server` and `client`, from the choice of the client to the end
-- of the program. What the flags say is an argument, and so is what happens at the node in between.
use metalbond.Base.{
  ℕ, Bool, false, Option, none, some, List, [], ◌∷◌, Comparable, nat_comparable, is_some,
  if◌then◌else◌,
}
use metalbond.Base.Text.{Text}
use metalbond.Types.{Destination, NextHop}
use metalbond.Client.{Client}
use metalbond.Wire.Library.{Proto}
use metalbond.Netlink.{Error, Host, NetlinkClient, add_route, remove_route}
use metalbond.Netlink.Cleanup.{cleanup, new_netlink_client}
use metalbond.Bond.{PeerId, Peer, Node, Env}
use metalbond.Bond.Lifecycle.{new_metal_bond, shut_down, start_http_server}
use metalbond.CommandLine.{
  NetipText, Outcome, goes_on, stops, ◌>>=◌, vni_table_map, cannot_create_client,
}
use metalbond.CommandLine.Start.{serve, run_client}

-- The value of the interface `metalbond.Client`, with the kernel that the netlink client writes to.
pub data AnyClient (A P K : Type 0) : Type 0 where
  netlink : NetlinkClient A P → K → AnyClient A P K
  dummy : K → AnyClient A P K

-- `NewMetalBond`, with the heap of peers that are not allocated yet
unfoldable pub new_node : {A P S : Type 0} → ℕ → (PeerId → Peer A P) → S → Node A P S
new_node interval heap s = record {
  bond = new_metal_bond interval;
  peer = heap;
  client = s;
  spawned = [];
}

module _ {A P S : Type 0} where
  -- the server, up to its wait: the flags say whether an HTTP address is given, and whether it can listen
  unfoldable pub run_server : Bool → Bool → Node A P S → Outcome (Node A P S)
  run_server http listens n = serve listens (if http then (start_http_server n).0 else n)

module _ {A P K : Type 0} where
  abbrev pub routed_by : (NetlinkClient A P × K) × Option Error → AnyClient A P K × Bool
  routed_by ((c, k), e) = (netlink c k, is_some e)

module _ {A P K : Type 0} ⦃ca : Comparable A⦄ ⦃cp : Comparable P⦄ (host : Host A P K) where
  -- the methods of the interface
  unfoldable pub any_add_route :
      ℕ → Destination P → NextHop A → AnyClient A P K → AnyClient A P K × Bool
  any_add_route vni dest hop (dummy k) = (dummy k, false)
  any_add_route vni dest hop (netlink c k) = routed_by (add_route host c vni dest hop k)

  unfoldable pub any_remove_route :
      ℕ → Destination P → NextHop A → AnyClient A P K → AnyClient A P K × Bool
  any_remove_route vni dest hop (dummy k) = (dummy k, false)
  any_remove_route vni dest hop (netlink c k) = routed_by (remove_route host c vni dest hop k)

  abbrev pub any_client : Client A P (AnyClient A P K)
  any_client = record { add_route = any_add_route; remove_route = any_remove_route }

  -- the choice of the client, by `InstallRoutes`; the link is what its name is found as
  unfoldable pub choose_client : List Text → Bool → Option ℕ → K → Outcome (AnyClient A P K)
  choose_client [] ipv4_only link k = goes_on (dummy k)
  choose_client (mapping ∷ mappings) ipv4_only link k =
      vni_table_map (mapping ∷ mappings) [] >>= λ m.
      let (client, k') =
        new_netlink_client host (record { vni_table_map = m; ipv4_only = ipv4_only }) link k in
      elim client [ none ↦ stops cannot_create_client | some c ↦ goes_on (netlink c k') ]

  -- the end of the client: the flag is `Cleanup`, and only the netlink client has such a method
  unfoldable pub clean_client : Bool → AnyClient A P K → AnyClient A P K × Bool
  clean_client wanted (dummy k) = (dummy k, false)
  clean_client wanted (netlink c k) =
      let (k', bad) = cleanup host c k in
      if wanted then (netlink c k', bad) else (netlink c k, false)

-- the flags of the client; a server has the address of the peer that is allocated for it
pub record ClientFlags : Type 0 where
  pub servers : List (PeerId × ℕ)
  pub subscribe : List ℕ
  pub announce : List Text
  pub install_routes : List Text
  pub ipv4_only : Bool
  pub keepalive : ℕ
  pub http : Bool
  pub cleanup : Bool

module _ {A P K : Type 0} ⦃ca : Comparable A⦄ ⦃cp : Comparable P⦄ (host : Host A P K)
    (proto : Proto) where
  abbrev pub client_env : Env A P (AnyClient A P K)
  client_env = record { net = host.net; proto = proto; client = any_client host }

  -- the client, up to its wait for the peers; the link is what its device is found as
  unfoldable pub start_client :
      NetipText host.net
      → ClientFlags
      → (PeerId → Peer A P)
      → Option ℕ
      → K
      → Outcome (Node A P (AnyClient A P K))
  start_client txt flags heap link k =
      choose_client host flags.install_routes flags.ipv4_only link k >>= λ client.
      let n = new_node flags.keepalive heap client in
      run_client client_env txt flags.subscribe flags.announce flags.servers
        (if flags.http then (start_http_server n).0 else n)

  -- The client, from the signal on; the flag says whether the clean up failed, and `none` is the panic
  -- of `Shutdown`. `Cleanup` follows `Shutdown` at once: what the goroutines of the peers still do
  -- meanwhile is not in it.
  unfoldable pub finish_client :
      ClientFlags → Node A P (AnyClient A P K) → Option (Node A P (AnyClient A P K) × Bool)
  finish_client flags n = elim (shut_down client_env n) [
    | none ↦ none
    | some n' ↦
        let (client, bad) = clean_client host flags.cleanup n'.client in
        some (record n' { client = client }, bad)
  ]
