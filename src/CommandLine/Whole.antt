-- ===== src/CommandLine/Whole.antt =====
-- cmd/metalbond/main.go: the client from its flags to its wait, and from the signal to its end.
use metalbond.Base.{
  some, ℕ, ◌≡◌, ◌∙◌, refl, arith, true, false, none, Option, List, map, Comparable, contains,
  IsDistinct, nat_comparable, is_some, if◌then◌else◌,
}
use metalbond.Base.Map.{get}
use metalbond.Types.{Destination, NextHop}
use metalbond.Wire.Library.{Proto}
use metalbond.Netlink.KernelRoutes.{Slot}
use metalbond.Netlink.{Host}
use metalbond.Netlink.Cleanup.{cleanup-installed}
use metalbond.Bond.{PeerId, Peer, Node}
use metalbond.Bond.Subscriptions.{is_subscribed}
use metalbond.Bond.Announced.{announced}
use metalbond.Bond.Lifecycle.{new_metal_bond, shut_down, stop_all, start_http_server}
use metalbond.Bond.Shutdown.{stop_all-view}
use metalbond.CommandLine.Tables.{
  tables, any_remove_route-tables, print_mapping, Used, Used-tables, choose_client-tables,
}
use metalbond.CommandLine.{NetipText, goes_on}
use metalbond.CommandLine.Start.{run_client}
use metalbond.CommandLine.Running.{run_client_lem, Reads, AllApart, lists_route, Route}
use metalbond.CommandLine.Program.{
  AnyClient, netlink, dummy, new_node, choose_client, clean_client, ClientFlags, client_env,
  start_client, finish_client,
}

module _ {A P K : Type 0} ⦃ca : Comparable A⦄ ⦃cp : Comparable P⦄ (host : Host A P K)
    (proto : Proto) where
  -- the kernel behind the client
  abbrev pub kernel_of : AnyClient A P K → K
  kernel_of (dummy k) = k
  kernel_of (netlink c k) = k

  clean_client-installed :
      (c : AnyClient A P K) (t : Slot)
      → (clean_client host true c).1 ≡ false
      → host.kernel.installed (kernel_of (clean_client host true c).0) t
        ≡ (if contains (tables c) t.table then none else host.kernel.installed (kernel_of c) t)
  unfolding clean_client contains
  clean_client-installed (dummy k) t h = refl
  clean_client-installed (netlink c k) t h = unfold contains in cleanup-installed host c k t h

  -- If --install-routes names tables in the documented format and no VNI twice, the client for the
  -- routes could be made, it was then called in any way, and the client ends with --cleanup, without
  -- a panic or an error: then the kernel has no route of the protocol left in any table named. Nothing
  -- calls the client between Shutdown and the end of the clean up.
  pub finish_client_lem :
      (flags : ClientFlags) (ms : List (ℕ × ℕ)) (link : Option ℕ) (k : K) (c : AnyClient A P K)
      (n m : Node A P (AnyClient A P K)) (t : Slot)
      → flags.install_routes ≡ map print_mapping ms
      → IsDistinct (map (λ e. e.0) ms)
      → choose_client host flags.install_routes flags.ipv4_only link k ≡ goes_on c
      → Used host c n.client
      → flags.cleanup ≡ true
      → finish_client host proto flags n ≡ some (m, false)
      → contains (map (λ e. e.1) ms) t.table ≡ true
      → host.kernel.installed (kernel_of m.client) t ≡ none
  unfolding finish_client shut_down
  finish_client_lem flags ms link k c n m t names d chosen used wanted ends named =
      let n' = stop_all (client_env host proto) n in
      let has : contains (tables c) t.table ≡ true =
        choose_client-tables host ms flags.ipv4_only link k c t.table d
          (ground (arith, names, chosen)) named in
      let same_tables : tables n'.client ≡ tables c =
        stop_all-view (client_env host proto) tables (any_remove_route-tables host) n
        ∙ Used-tables host used in
      ground (arith, clean_client-installed n'.client t, same_tables, has, wanted, ends)

  client_started :
      (txt : NetipText host.net) (flags : ClientFlags) (heap : PeerId → Peer A P) (link : Option ℕ)
      (k : K) (c : AnyClient A P K) (m : Node A P (AnyClient A P K))
      → choose_client host flags.install_routes flags.ipv4_only link k ≡ goes_on c
      → run_client (client_env host proto) txt flags.subscribe flags.announce flags.servers (
          if flags.http
          then (start_http_server (new_node flags.keepalive heap c)).0
          else new_node flags.keepalive heap c)
        ≡ goes_on m
      → start_client host proto txt flags heap link k ≡ goes_on m
  unfolding start_client
  client_started txt flags heap link k c m e r = rw e r

  started-bond :
      (flags : ClientFlags) (heap : PeerId → Peer A P) (c : AnyClient A P K)
      → (if flags.http
          then (start_http_server (new_node flags.keepalive heap c)).0
          else new_node flags.keepalive heap c).bond
        ≡ new_metal_bond flags.keepalive
  unfolding start_http_server new_node metalbond.Bond.start
  started-bond flags heap c = ground arith

  started-client :
      (flags : ClientFlags) (heap : PeerId → Peer A P) (c : AnyClient A P K)
      → (if flags.http
          then (start_http_server (new_node flags.keepalive heap c)).0
          else new_node flags.keepalive heap c).client
        ≡ c
  unfolding start_http_server new_node metalbond.Bond.start
  started-client flags heap c = ground arith

  -- If no VNI, no route and no server is named twice, each announcement is read as a route, and the
  -- client for the routes can be made, the program comes to its wait for the peers; then the node is
  -- subscribed to exactly the VNIs, announces exactly the routes, has exactly the servers as peers, and
  -- its client is as it was made.
  pub start_client_lem :
      (txt : NetipText host.net) (flags : ClientFlags) (heap : PeerId → Peer A P) (link : Option ℕ)
      (k : K) (c : AnyClient A P K) (rs : List (Route A P))
      → choose_client host flags.install_routes flags.ipv4_only link k ≡ goes_on c
      → IsDistinct flags.subscribe
      → Reads (client_env host proto) txt flags.announce rs
      → AllApart rs
      → IsDistinct (map (λ s. s.1) flags.servers)
      → (m : Node A P (AnyClient A P K)) × (start_client host proto txt flags heap link k
          ≡ goes_on m)
        × (m.client ≡ c)
        × ((v : ℕ) → is_subscribed v m ≡ contains flags.subscribe v)
        × ((v : ℕ) (d : Destination P) (h : NextHop A) → announced m v d h ≡ lists_route rs v d h)
        × ((addr : ℕ)
            → is_some (get m.bond.peers addr) ≡ contains (map (λ s. s.1) flags.servers) addr)
  start_client_lem txt flags heap link k c rs e d r a l =
      let n =
        if flags.http
        then (start_http_server (new_node flags.keepalive heap c)).0
        else new_node flags.keepalive heap c in
      let (m, runs, client, subscribed, announces, peers) =
        run_client_lem (client_env host proto) txt flags.keepalive flags.subscribe flags.announce rs
          flags.servers n (started-bond flags heap c) d r a l in
      (
        m,
        client_started txt flags heap link k c m e runs,
        client ∙ started-client flags heap c,
        subscribed,
        announces,
        peers,
      )
