-- ===== src/Data/Types/Table.antt =====
-- pipe/data/agcore_data.c: reading and writing the protocol state of a link in the table.
use agcore.Prelude.{
  ℕ, ◌≡◌, ◌≢◌, some, length, length-set, get_elem?, get_elem?-set_self, get_elem?-set_ne, arith,
  Option-cases, inl, inr,
}
use agcore.Data.Types.{LinkContext, Links, ProtocolState, protocol_state_get, protocol_state_put}

pub length-protocol_state_put :
    (links : Links) (link : ℕ) (p : ProtocolState)
    → length (protocol_state_put links link p) ≡ length links
unfolding protocol_state_put
length-protocol_state_put links link p = grind (arith, length-set {A = LinkContext})

-- What is put is got, on a link of the table.
pub get-put_self :
    (links : Links) (link : ℕ) (old p : ProtocolState)
    → protocol_state_get links link ≡ some old
    → protocol_state_get (protocol_state_put links link p) link ≡ some p
unfolding protocol_state_get protocol_state_put
get-put_self links link old p h = elim (Option-cases (get_elem? links link)) [
  | inl e ↦ ground arith
  | inr (c, e) ↦ ground (
    arith,
    length-set links link (record c { protocol = p }),
    get_elem?-set_self links link (record c { protocol = p }),
  )
]

-- The other links keep their states.
pub get-put_ne :
    (links : Links) (link other : ℕ) (p : ProtocolState)
    → link ≢ other
    → protocol_state_get (protocol_state_put links link p) other ≡ protocol_state_get links other
unfolding protocol_state_get protocol_state_put
get-put_ne links link other p h = elim (Option-cases (get_elem? links link)) [
  | inl e ↦ ground arith
  | inr (c, e) ↦ ground (
    arith,
    length-set links link (record c { protocol = p }),
    get_elem?-set_ne links {i = link} {j = other} (record c { protocol = p }) h,
  )
]
