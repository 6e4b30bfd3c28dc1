-- ===== src/Spawner/News.antt =====
-- What a run says about one message: the answers to it, and the calls that release it.
use openharmony_mac_build.Common.{
  ℕ, Bool, true, false, Option, none, some, [], ◌∷◌, if◌then◌else◌, ◌==◌, ◌≡◌,
}
use openharmony_mac_build.Spawner.State.{Env, Message, Call, send, delete_msg, delete_ctx, Trace}

abbrev pub is_node : ℕ → Option Message → Bool
is_node n none = false
is_node n (some m) = m.node == n

-- DeleteAppSpawningCtx releases the message of the context.
abbrev pub concerns : ℕ → Call → Bool
concerns n (send m c p) = m.node == n
concerns n (delete_msg m) = m.node == n
concerns n (delete_ctx x) = is_node n x.message
concerns n _ = false

-- The calls that concern the message at `n`, the newest first.
abbrev pub news : ℕ → Trace → Trace
news n [] = []
news n (c ∷ t) = if concerns n c then c ∷ news n t else news n t

-- Every response fits its buffer.
pub record Replies (env : Env) : Type 0 where
  pub fits : (t : Trace) → env.copy_ok t ≡ true

abbrev pub is_answer : Call → Bool
is_answer (send m c p) = true
is_answer _ = false

abbrev pub is_release : Call → Bool
is_release (delete_msg m) = true
is_release (delete_ctx x) = true
is_release _ = false

-- Since `t`, the message at `n` has been answered once, and after that released once.
pub record Settled (n : ℕ) (t u : Trace) : Type 0 where
  pub answer : Call
  pub release : Call
  pub answers : is_answer answer ≡ true
  pub releases : is_release release ≡ true
  pub since : news n u ≡ release ∷ answer ∷ news n t
