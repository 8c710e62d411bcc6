-- ===== src/Mall/Payload.antt =====
-- `SagaPayload` of internal/rpc/mall/domain/model.go, and what is asked of it.
use Prim.Native.Char.{code}
use liveclass.Prelude.{ℕ, Bool, true, not, ◌&&◌, ◌||◌, String, leb, nat_beq, string_eq}
use liveclass.Prelude.Int.{ℤ, is_positive}

pub record SagaPayload : Type 0 where
  pub order_id : String
  pub user_id : ℤ
  pub request_id : String
  pub product_id : ℤ
  pub quantity : ℤ
  pub points_price : ℤ
  pub total_points : ℤ
  pub saga_gid : String
  pub fail_at : String

-- unicode.IsSpace
unfoldable pub is_space : ℕ → Bool
is_space c =
    (leb 9 c && leb c 13)
    || (nat_beq c 32
        || (nat_beq c 0x85
            || (nat_beq c 0xa0
                || (nat_beq c 0x1680
                    || ((leb 0x2000 c && leb c 0x200a)
                        || (nat_beq c 0x2028
                            || (nat_beq c 0x2029
                                || (nat_beq c 0x202f
                                    || (nat_beq c 0x205f || nat_beq c 0x3000)))))))))

-- strings.TrimSpace(s) == ""
unfoldable pub is_blank : String → Bool
unfolding is_space
is_blank String.[] = true
is_blank (String.◌∷◌ c s) = is_space (code c) && is_blank s

-- `validatePayload` accepts the payload.
unfoldable pub valid_payload : SagaPayload → Bool
unfolding is_blank
valid_payload p = not (
    is_blank p.order_id
    || (not (is_positive p.user_id)
        || (not (is_positive p.product_id)
            || (not (is_positive p.quantity)
                || (not (is_positive p.total_points) || is_blank p.request_id)))))
