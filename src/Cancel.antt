-- ===== src/Cancel.antt =====
-- The cancellation tokens that the server uses (tokio_util's CancellationToken), as a parameter: the
-- operations, and the documented behaviour of a token and its children.
use voice_ai.Base.{◌≡◌, Bool, true, false}

-- `World` is the state of all tokens; `same` is the token's `==`.
pub record CancelTokens : Type 1 where
  pub World : Type 0
  pub Token : Type 0
  pub new_token : World → World × Token
  pub child_token : World → Token → World × Token
  pub cancel : World → Token → World
  pub is_cancelled : World → Token → Bool
  pub same : Token → Token → Bool

-- `Child w t u`: `u` was made from `t`. `Known w t`: the token `t` exists.
pub record CancelLaws (ct : CancelTokens) : Type 1 where
  pub Known : ct.World → ct.Token → Type 0
  pub Child : ct.World → ct.Token → ct.Token → Type 0
  pub new_fresh :
      (w : ct.World)
      → Known (ct.new_token w).0 (ct.new_token w).1
        × (ct.is_cancelled (ct.new_token w).0 (ct.new_token w).1 ≡ false)
  pub new_keeps :
      (w : ct.World) (t : ct.Token)
      → Known w t
      → ct.is_cancelled (ct.new_token w).0 t ≡ ct.is_cancelled w t
  pub new_known : (w : ct.World) (t : ct.Token) → Known w t → Known (ct.new_token w).0 t
  pub child_made :
      (w : ct.World) (t : ct.Token)
      → Known w t
      → Child (ct.child_token w t).0 t (ct.child_token w t).1
  pub child_born :
      (w : ct.World) (t : ct.Token)
      → Known w t
      → ct.is_cancelled (ct.child_token w t).0 (ct.child_token w t).1 ≡ ct.is_cancelled w t
  pub child_keeps :
      (w : ct.World) (t u : ct.Token)
      → Known w u
      → ct.is_cancelled (ct.child_token w t).0 u ≡ ct.is_cancelled w u
  pub child_known : (w : ct.World) (t u : ct.Token) → Child w t u → Known w u
  pub cancel_self : (w : ct.World) (t : ct.Token) → ct.is_cancelled (ct.cancel w t) t ≡ true
  pub cancel_child :
      (w : ct.World) (t u : ct.Token) → Child w t u → ct.is_cancelled (ct.cancel w t) u ≡ true
  pub cancel_known : (w : ct.World) (t u : ct.Token) → Known w u → Known (ct.cancel w t) u
  pub cancel_keeps :
      (w : ct.World) (t u : ct.Token)
      → ct.is_cancelled w u ≡ true
      → ct.is_cancelled (ct.cancel w t) u ≡ true
