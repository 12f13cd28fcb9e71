-- ===== src/Runs/Values.antt =====
-- The definitions at small inputs.
use concurrent_kv_store.Base.{◌≡◌, refl, ◌∷◌, []}
use concurrent_kv_store.Wal.Codec.{
  crc32, crc32_loop, crc32_round, crc32_rounds, crc32_entries, make_crc32_table,
}
use concurrent_kv_store.Cli.Parser
use concurrent_kv_store.Base.{bytes_discrete}
use concurrent_kv_store.Cli.Parser.{parse_verb, parse_tokens, is_word, parse, command, set}
use concurrent_kv_store.Cli.Text.{
  skip_spaces, is_space, split_from, to_upper, upper, join_tokens, trim, split_whitespace_view,
}

-- The check value of the CRC-32 that zlib computes, of the digits from 1 to 9.
crc32_check : crc32 (b'1' ∷ b'2' ∷ b'3' ∷ b'4' ∷ b'5' ∷ b'6' ∷ b'7' ∷ b'8' ∷ b'9' ∷ []) ≡ 0xCBF43926
unfolding crc32 crc32_loop make_crc32_table crc32_entries crc32_rounds crc32_round
crc32_check = refl

-- ` set c  a b `
set_line :
    parse (32 ∷ b's' ∷ b'e' ∷ b't' ∷ 32 ∷ b'c' ∷ 32 ∷ 32 ∷ b'a' ∷ 32 ∷ b'b' ∷ 32 ∷ [])
    ≡ command set (b'c' ∷ []) (b'a' ∷ 32 ∷ b'b' ∷ [])
unfolding parse trim split_whitespace_view command skip_spaces is_space parse_tokens split_from
    parse_verb is_word bytes_discrete to_upper upper Parser.parse_set join_tokens
set_line = refl
