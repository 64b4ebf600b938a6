-- ===== src/Wire/Buffer/Whole.antt =====
-- A whole message, from what its steps write.
use bluechip_chain_official.Prelude.{
  ℕ, ◌-◌, ◌≡◌, ap, arith, Bytes, [], ◌++◌, Outcome, ok, length, replicate, length-append,
  length-replicate, take_all, append-nil, ◌∙◌,
}
use bluechip_chain_official.Wire.Buffer.{Cursor, sized, made}
use bluechip_chain_official.Wire.Buffer.Writes.{Writes}

module _ (put : Cursor → Outcome Cursor) (ws : Bytes) (h : Writes put ws) where
  pub sized_lem :
      (front junk : Bytes)
      → length junk ≡ length ws
      → sized put (front ++ junk) ≡ ok (front ++ ws, length ws)
  unfolding sized
  sized_lem front junk e =
      let start = rw (append-nil (front ++ junk), append-nil ws) at (h front junk [] e) in
      let count : length (front ++ ws) - length front ≡ length ws =
        omega (arith, length-append front ws) in
      rw start (ap (λ (k : ℕ). ok (front ++ ws, k)) count)

  pub made_lem : (size : ℕ) → size ≡ length ws → made size (sized put) ≡ ok ws
  unfolding made
  made_lem size e =
      let room : length (replicate size 0) ≡ length ws = length-replicate size 0 ∙ e in
      let whole : sized put (replicate size 0) ≡ ok (ws, length ws) =
        sized_lem [] (replicate size 0) room in
      rw whole (ap ok (take_all ws))
