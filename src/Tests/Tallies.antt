-- ===== src/Tests/Tallies.antt =====
-- A codec for ids that writes them in tallies.
use Prim.Native.String.{String, [] as no_text, ◌∷◌ as ◌≻◌}
use spanner_paxos.Base.{ap, refl, some, suc, zero, ℕ, ◌≡◌}
use spanner_paxos.Proto.{UuidCodec}
use spanner_paxos.Proto.RoundTrips.{ParsesIds}

abbrev pub tallies : ℕ → String
tallies zero = no_text
tallies (suc n) = "i" ≻ tallies n

abbrev pub tally : String → ℕ
tally no_text = 0
tally (c ≻ text) = suc (tally text)

abbrev pub tally_codec : UuidCodec
tally_codec = record { to_string = tallies; parse_str = λ text. some (tally text) }

tally-tallies : (n : ℕ) → tally (tallies n) ≡ n
tally-tallies zero = refl
tally-tallies (suc n) = ap suc (tally-tallies n)

pub tally_codec-ParsesIds : ParsesIds tally_codec
tally_codec-ParsesIds id = ap some (tally-tallies id)
