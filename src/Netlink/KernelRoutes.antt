-- ===== src/Netlink/KernelRoutes.antt =====
-- What netlink.go uses of github.com/vishvananda/netlink and of the kernel behind it: a parameter,
-- with the documented effect of each call on the routes of the protocol `METALBOND_RT_PROTO`.
use metalbond.Base.{
  ℕ, ◌≡◌, Bool, Option, none, some, List, Comparable, ℕ_discrete, same, if◌then◌else◌, contains,
  ◌&&◌, is_some, nat_comparable,
}

-- the table and the destination network of a route; the mask is made of the prefix's bits
pub record Slot : Type 0 where
  pub table : ℕ
  pub ip : List ℕ
  pub bits : Option ℕ

unfoldable pub Slot-discrete : Discrete Slot
Slot-discrete = hlevel ℕ_discrete

instance abbrev pub slot_comparable : Comparable Slot
slot_comparable = record { equals = Slot-discrete }

-- `netlink.NexthopInfo`, the encapsulation's source being always `net.IPv6zero`
pub record HopInfo : Type 0 where
  pub link_index : ℕ
  pub encap_dst : List ℕ

-- A call returns the new state of the kernel, and whether it failed.
pub record Kernel (K : Type 0) : Type 0 where
  pub route_replace : Slot → List HopInfo → K → K × Bool
  pub route_del : Slot → K → K × Bool
  -- `RouteListFiltered` by the table and the protocol; `none` is an error
  pub route_list : ℕ → K → Option (List Slot)
  -- what the kernel has for a table and a network
  pub installed : K → Slot → Option (List HopInfo)
  pub replace_effect :
      (s t : Slot) (hops : List HopInfo) (k : K)
      → installed (route_replace s hops k).0 t ≡ (
          if (route_replace s hops k).1
          then installed k t
          else if same s t
          then some hops
          else installed k t)
  pub del_effect :
      (s t : Slot) (k : K)
      → installed (route_del s k).0 t
        ≡ (if (route_del s k).1 then installed k t else if same s t then none else installed k t)
  -- the listing of a table has the places of its routes and no others
  pub list_effect :
      (table : ℕ) (t : Slot) (k : K) (slots : List Slot)
      → route_list table k ≡ some slots
      → contains slots t ≡ (same table t.table && is_some (installed k t))
