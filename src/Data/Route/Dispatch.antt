-- ===== src/Data/Route/Dispatch.antt =====
-- pipe/data/agcore_data_route.c: which callbacks a message reaches.
use agcore.Prelude.{
  ℕ, ◌≡◌, refl, ap, subst, sym, ◌∙◌, List, [], ◌∷◌, ◌++◌, some, false, ◌&&◌, length, map, get_elem?,
  append_assoc, append-nil, ltb, length-append,
}
use agcore.Data.Types.{Data}
use agcore.Data.Protocol.{is_null}
use agcore.Data.Route.{Node, route_loop, route_handler}

-- The callbacks one after the other.
pub each : {W : Type 0} → (ℕ → Data → W → W) → List ℕ → Data → W → W
each call [] d w = w
each call (cb ∷ cbs) d w = each call cbs d (call cb d w)

-- A payload is there where its length says so.
abbrev pub HasPayload : Data → Type 0
HasPayload d = (ltb 0 d.payload_len && is_null d.payload) ≡ false

module _ {W : Type 0} (nodes : W → List Node) (call : ℕ → Data → W → W) where
  -- A call may register callbacks, and takes none away.
  abbrev pub OnlyAdds : Type 0
  OnlyAdds = (cb : ℕ) (d : Data) (w : W) → (ns : List Node) × (nodes (call cb d w) ≡ nodes w ++ ns)

  node_at :
      (done : List Node) (n : Node) (rest : List Node)
      → get_elem? (done ++ (n ∷ rest)) (length done) ≡ some n
  node_at [] n rest = refl
  node_at (x ∷ done) n rest = node_at done n rest

  reach :
      OnlyAdds
      → (todo done added : List Node) (d : Data) (w : W) → nodes w ≡ done ++ (todo ++ added)
      → route_loop nodes call (length todo) (length done) d w ≡ each call (map (λ n. n.cb) todo) d w
  unfolding route_loop each
  reach adds [] done added d w e = refl
  reach adds (n ∷ todo) done added d w e =
      rw (e, node_at done n (todo ++ added), route_loop)
        (let (ns, g) = adds n.cb d w in
          let step : nodes (call n.cb d w) ≡ (done ++ (n ∷ [])) ++ (todo ++ (added ++ ns)) =
            g ∙ ap (λ t. t ++ ns) e ∙ simp append_assoc in
          subst
            (λ (k : ℕ).
              route_loop nodes call (length todo) k d (call n.cb d w)
              ≡ each call (map (λ n. n.cb) todo) d (call n.cb d w))
            (length-append done (n ∷ []))
            (reach adds todo (done ++ (n ∷ [])) (added ++ ns) d (call n.cb d w) step))

  -- Where calls only add callbacks, a message with the payload that it announces is given to each
  -- callback that was registered when the dispatch began, in the order of registration and once per
  -- registration; those that a call registers do not get it.
  pub route_handler-each :
      (d : Data) (w : W)
      → OnlyAdds
      → HasPayload d
      → route_handler nodes call (some d) w ≡ each call (map (λ n. n.cb) (nodes w)) d w
  unfolding route_handler
  route_handler-each d w adds v = rw v (reach adds (nodes w) [] [] d w (sym (append-nil (nodes w))))
