-- ===== src/Failures/Conversation/Lineage.antt =====
-- The walk from the current node to the root ends, also where the parents form a cycle.
use jove_mage.Prelude.{
  ℕ, zero, suc, ◌+◌, ◌≤◌, String, ◌≡◌, ◌⊎◌, inl, inr, Bool, true, false, List, [], ◌∷◌, arith,
  eq_iff, contains, Distinct, AllIn, length-le-size, Dict, get, has, size, length, Value,
  Bool-cases, Option-cases,
}
use jove_mage.Failures.Conversation.{is_blank, node_of, parent_of, walks_on, lineage}

module _ (show : Value → String) (parses : String → Bool) (rank : Value → ℕ) where
  node-has :
      (nodes : Dict Value) (node_id : String)
      → is_blank (node_of nodes node_id) ≡ false
      → has nodes node_id ≡ true
  unfolding node_of has is_blank
  node-has nodes node_id h = elim (Option-cases (get nodes node_id)) [
    | inl e ↦ absurd (ground (arith, e, h))
    | inr (v, e) ↦ ground (arith, e)
  ]

  lineage-ends :
      (fuel : ℕ) (nodes : Dict Value) (node_id : String) (visited : List String)
      → Distinct visited
      → AllIn nodes visited
      → size nodes ≤ fuel + length visited
      → let r = lineage show parses rank fuel nodes node_id visited in
        walks_on show parses rank nodes r.1 r.2 ≡ false
  unfolding lineage
  lineage-ends zero nodes node_id visited s a enough =
      elim (Bool-cases (walks_on show parses rank nodes node_id visited)) [
        | inl e ↦ absurd (
            unfold walks_on in
            omega (
              arith,
              length-le-size nodes (node_id ∷ visited) (ground (arith, e), s)
                  (node-has nodes node_id (ground (arith, e)), a),
            ))
        | inr e ↦ e
      ]
  lineage-ends (suc fuel) nodes node_id visited s a enough =
      elim (Bool-cases (walks_on show parses rank nodes node_id visited)) [
        | inl e ↦
            rw (e, lineage)
              (lineage-ends fuel nodes (parent_of show parses rank (node_of nodes node_id))
                (node_id ∷ visited) (unfold walks_on in ground (arith, e), s)
                (unfold walks_on in node-has nodes node_id (ground (arith, e)), a)
                (omega (arith, enough)))
        | inr e ↦ rw (e, lineage) e
      ]

  -- The walk over as many nodes as the conversation has always ends by its own test: at a node that is
  -- not named, that has been visited, or that is missing or empty.
  pub lineage_lem :
      (nodes : Dict Value) (current_node : String)
      → let r = lineage show parses rank (size nodes) nodes current_node [] in
        (r.1 ≡ "") ⊎ (contains r.1 r.2 ≡ true) ⊎ (is_blank (node_of nodes r.1) ≡ true)
  lineage_lem nodes current_node =
      let r = lineage show parses rank (size nodes) nodes current_node [] in
      split r.1 r.2 (lineage-ends (size nodes) nodes current_node [] tt tt (omega arith))
    where
      split :
          (node_id : String) (visited : List String)
          → walks_on show parses rank nodes node_id visited ≡ false
          → (node_id ≡ "")
            ⊎ (contains node_id visited ≡ true)
            ⊎ (is_blank (node_of nodes node_id) ≡ true)
      split node_id visited h = unfold walks_on in ground (arith, h, eq_iff node_id "")
