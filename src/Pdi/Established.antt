-- ===== src/Pdi/Established.antt =====
-- When the PDI connection of src/cloud_ixl/c/main.c is open for commands.
use tfm_cloud_ixl_rasta.Prelude.{
  ℕ, ◌≤◌, ◌≡◌, ◌⊎◌, Bool, true, false, ◌&&◌, ◌||◌, not, List, [], ◌∷◌, arith,
}
use tfm_cloud_ixl_rasta.Sci.Scils.{Scils}
use tfm_cloud_ixl_rasta.Pdi.State.{code}
use tfm_cloud_ixl_rasta.Pdi.Events.{Event, run}
use tfm_cloud_ixl_rasta.Pdi.Moves.{Moves}
use tfm_cloud_ixl_rasta.Pdi.Signs.{
  is_oc_handshake, is_accepted_version_sign, is_status_begin_sign, is_status_finish_sign, is_reset,
}
use tfm_cloud_ixl_rasta.Pdi.History.{step-Moves, reset_state}

-- Whether the history, latest event first, has the signs in this order (the latest sign first), with
-- no event of the kind `cut` since the earliest of them.
unfoldable pub seen_since : (Event → Bool) → List (Event → Bool) → List Event → Bool
seen_since cut [] es = true
seen_since cut (s ∷ ss) [] = false
seen_since cut (s ∷ ss) (e ∷ es) =
    not (cut e) && ((s e && seen_since cut ss es) || seen_since cut (s ∷ ss) es)

-- How far the history has to have come for a state.
abbrev Reached : Bool → Bool → Bool → Bool → ℕ → Type 0
Reached shaken version begin finish q =
    (q ≡ 2 → shaken ≡ true)
    × (q ≡ 3 → version ≡ true)
    × (q ≡ 4 → begin ≡ true)
    × (5 ≤ q → q ≤ 9 → finish ≡ true)

Reached-next :
    (r sh ve be fi s v b f : Bool) (q p : ℕ)
    → Moves sh ve be fi q p
    → (r ≡ true → (q ≤ 1) ⊎ (q ≡ 10))
    → Reached s v b f p
    → Reached
        (not r && ((sh && true) || s))
        (not r && ((ve && s) || v))
        (not r && ((be && v) || b))
        (not r && ((fi && b) || f))
        q
Reached-next true sh ve be fi s v b f q p m k h = ground arith
Reached-next false sh ve be fi s v b f q p m k h = ground arith

module _ (big : Bool) (ls : Scils) where
  run-Reached :
      (es : List Event)
      → Reached
          (seen_since is_reset (is_oc_handshake ∷ []) es)
          (seen_since is_reset (is_accepted_version_sign big ∷ is_oc_handshake ∷ []) es)
          (seen_since is_reset
            (is_status_begin_sign big ∷ is_accepted_version_sign big ∷ is_oc_handshake ∷ [])
            es)
          (seen_since is_reset
            (is_status_finish_sign big
              ∷ is_status_begin_sign big
              ∷ is_accepted_version_sign big
              ∷ is_oc_handshake
              ∷ [])
            es)
          (code (run big ls es).state)
  unfolding seen_since run
  run-Reached [] = ground arith
  run-Reached (e ∷ es) =
      Reached-next _ _ _ _ _ _ _ _ _ _ _ (step-Moves big ls e (run big ls es))
        (reset_state big ls e (run big ls es)) (run-Reached es)

  -- When the PDI state is one of established, waiting for a confirmation, or a command's result, the
  -- history has, in this order, a handshake with the Object Controller, an accepted version response,
  -- the begin and the finish of the initial status, each from the expected sender to the expected
  -- receiver, and no reset of the connection since that handshake.
  pub open_after_signs :
      (es : List Event)
      → 5 ≤ code (run big ls es).state
      → code (run big ls es).state ≤ 9
      → seen_since is_reset
          (is_status_finish_sign big
            ∷ is_status_begin_sign big
            ∷ is_accepted_version_sign big
            ∷ is_oc_handshake
            ∷ [])
          es
        ≡ true
  open_after_signs es lo hi = (run-Reached es).3 lo hi
