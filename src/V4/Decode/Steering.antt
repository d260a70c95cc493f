-- ===== src/V4/Decode/Steering.antt =====
-- What the core fetches next against what execute computes.
use little.Base.{ℕ, ◌+◌, ◌%◌, ◌^◌, true, false, ◌≡◌, ◌≢◌, ◌↔◌, arith}
use little.Execute.{ExecuteOutputs}
use little.Predictor.{Prediction, not_taken, backward_taken}
use little.V4.Decode.{Inputs, decode, fetched_next_pc, execute_mispredict}

-- The policies of the predictor module.
pub data IsPolicy : (ℕ → ℕ → Prediction) → Type 0 where
  never : IsPolicy not_taken
  backward : IsPolicy backward_taken

predicted_fetch :
    (p : ℕ → ℕ → Prediction) (i : Inputs)
    → IsPolicy p
    → i.post_increment_pc ≡ (i.pc + 2) % 2 ^ 64
    → fetched_next_pc p i ≡ (decode p i).predicted_next_pc
unfolding fetched_next_pc decode not_taken backward_taken
predicted_fetch p i never e = ground arith
predicted_fetch p i backward e = ground arith

-- With either predictor, for an instruction that in execute does not trap, halt or lock up while no
-- access redirects, execute reports a misprediction exactly if its next program counter is not what
-- the core fetched after the instruction.
pub mispredict_iff_fetched_wrong :
    (p : ℕ → ℕ → Prediction) (i : Inputs) (o : ExecuteOutputs)
    → IsPolicy p
    → i.post_increment_pc ≡ (i.pc + 2) % 2 ^ 64
    → o.halt ≡ false
    → o.lockup ≡ false
    → o.trap ≡ false
    → (execute_mispredict true false o (decode p i).predicted_next_pc ≡ true)
      ↔ (o.next_pc ≢ fetched_next_pc p i)
unfolding execute_mispredict
mispredict_iff_fetched_wrong p i o policy e h l t = (
  λ m. ground (arith, predicted_fetch p i policy e),
  λ n. ground (arith, predicted_fetch p i policy e),
)
