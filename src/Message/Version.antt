-- ===== src/Message/Version.antt =====
-- The version payload: its length, and where its parts lie.
use satoxcoin_seeder.Prelude.{
  ℕ, ◌≡◌, false, List, [], ◌∷◌, ◌++◌, length, length-append, to_le_bytes, length-to_le_bytes, arith,
  ℤ, as_u32, as_u64,
}
use satoxcoin_seeder.Serialize.{write_varstr}
use satoxcoin_seeder.App.{AppState}
use satoxcoin_seeder.Message.{
  Address, IsAddress, writes_time, address_tail, serialize_address, serialize_version_payload,
}
use satoxcoin_seeder.Message.Addresses.{length-address_tail}

-- The part of the payload before the user agent, with both addresses without timestamp.
unfoldable pub version_fixed : ℕ → ℕ → ℤ → Address → Address → ℕ → List ℕ
version_fixed proto services timestamp recv from nonce =
    to_le_bytes 4 proto
    ++ (to_le_bytes 8 services
        ++ (to_le_bytes 8 (as_u64 timestamp)
            ++ (address_tail recv ++ (address_tail from ++ to_le_bytes 8 nonce))))

pub length-version_fixed :
    (proto services : ℕ) (timestamp : ℤ) (recv from : Address) (nonce : ℕ)
    → IsAddress recv
    → IsAddress from
    → length (version_fixed proto services timestamp recv from nonce) ≡ 80
unfolding version_fixed
length-version_fixed proto services timestamp recv from nonce wr wf =
    let n = to_le_bytes 8 nonce in
    let f = address_tail from in
    let r = address_tail recv in
    let t = to_le_bytes 8 (as_u64 timestamp) in
    let s = to_le_bytes 8 services in
    let p = to_le_bytes 4 proto in
    omega (
      arith,
      length-append p (s ++ (t ++ (r ++ (f ++ n)))),
      length-append s (t ++ (r ++ (f ++ n))),
      length-append t (r ++ (f ++ n)),
      length-append r (f ++ n),
      length-append f n,
      length-to_le_bytes 4 proto,
      length-to_le_bytes 8 services,
      length-to_le_bytes 8 (as_u64 timestamp),
      length-to_le_bytes 8 nonce,
      length-address_tail recv wr,
      length-address_tail from wf,
    )

-- Without timestamps in the addresses the payload is the fixed part, the string, the height and
-- the relay byte.
pub serialize_version_payload_lem :
    (state : AppState) (proto services : ℕ) (timestamp : ℤ) (recv from : Address) (nonce : ℕ)
    (sub_version : List ℕ) (height : ℤ) (relay : ℕ)
    → writes_time state state.init_proto_version ≡ false
    → serialize_version_payload state proto services timestamp recv from nonce sub_version height
        relay
      ≡ write_varstr (version_fixed proto services timestamp recv from nonce) sub_version
        ++ (to_le_bytes 4 (as_u32 height) ++ (relay ∷ []))
unfolding serialize_version_payload serialize_address version_fixed
serialize_version_payload_lem state proto services timestamp recv from nonce sub_version height
      relay out =
    rw out
