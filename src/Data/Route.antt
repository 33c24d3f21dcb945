-- ===== src/Data/Route.antt =====
-- pipe/data/agcore_data_route.c. The list of the nodes is in the order of the links from the head on,
-- so that the tail is the last one. A callback is known by its address.
pub mod Dispatch
pub mod Registration
use agcore.Prelude.{
  ℕ, zero, suc, ◌+◌, List, [], ◌∷◌, ◌++◌, Option, none, some, Bool, false, ◌&&◌, ◌||◌, ◌==◌, ltb,
  if◌then◌else◌, length, get_elem?,
}
use agcore.Platform.Heap.{Block, Heap, Malloc, malloc}
use agcore.Data.Types.{Data}
use agcore.Data.Protocol.{is_null}

-- `agcore_data_handler_node_t` in its block.
pub record Node : Type 0 where
  pub cb : ℕ
  pub block : Block

-- `sizeof(*node)`: two pointers.
abbrev pub node_size : ℕ
node_size = 8

abbrev pub is_registered : ℕ → List Node → Bool
is_registered cb [] = false
is_registered cb (n ∷ ns) = (n.cb == cb) || is_registered cb ns

-- The new node in its block, at the tail.
abbrev pub add_node : List Node → ℕ → Heap × Option Block → Heap × List Node
add_node nodes cb (h, none) = (h, nodes)
add_node nodes cb (h, some b) = (h, nodes ++ (record { cb = cb; block = b } ∷ []))

-- The heap and the nodes that are left.
unfoldable pub handler_register : Malloc → Heap → List Node → Option ℕ → Heap × List Node
handler_register m h nodes none = (h, nodes)
handler_register m h nodes (some cb) =
    if is_registered cb nodes then (h, nodes) else add_node nodes cb (malloc m node_size h)

module _ {W : Type 0} (nodes : W → List Node) (call : ℕ → Data → W → W) where
  -- The loop from the node with number i, with the rounds left up to the node that was last. A node is
  -- read again after each call, since a call may have registered others.
  unfoldable pub route_loop : ℕ → ℕ → Data → W → W
  route_loop zero i d w = w
  route_loop (suc rounds) i d w = elim (get_elem? (nodes w) i) [
    | none ↦ w
    | some n ↦ route_loop rounds (i + 1) d (call n.cb d w)
  ]

  unfoldable pub route_handler : Option Data → W → W
  route_handler none w = w
  route_handler (some d) w =
      if ltb 0 d.payload_len && is_null d.payload then w else route_loop (length (nodes w)) 0 d w
