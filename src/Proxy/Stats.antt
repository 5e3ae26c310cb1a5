-- ===== src/Proxy/Stats.antt =====
-- internal/resources/hashrate/proxy/stats.go. The atomic counters wrap at 2^64; `int` of a counter
-- in the map of stats has the same bits as a signed number.
use proxy_router.Prelude.{ℕ, ◌+◌, ◌-◌, ◌%◌, ◌^◌, String, [], ◌∷◌, if◌then◌else◌, ltb}
use proxy_router.Prelude.Int.{ℤ, pos, negsuc}
use proxy_router.Prelude.Assoc.{Assoc}

pub record DestStats : Type 0 where
  pub we_accepted_they_accepted : ℕ
  pub we_accepted_they_rejected : ℕ
  pub we_rejected_they_accepted : ℕ

pub record SourceStats : Type 0 where
  pub we_accepted_shares : ℕ
  pub we_rejected_shares : ℕ
  pub we_accepted_they_rejected : ℕ
  pub we_rejected_they_accepted : ℕ

abbrev pub inc : ℕ → ℕ
inc n = (n + 1) % 2 ^ 64

abbrev pub as_int : ℕ → ℤ
as_int n = if ltb n (2 ^ 63) then pos n else negsuc (2 ^ 64 - n - 1)

abbrev pub dest_inc_both_accepted : DestStats → DestStats
dest_inc_both_accepted s = record s { we_accepted_they_accepted = inc s.we_accepted_they_accepted }

abbrev pub dest_inc_they_rejected : DestStats → DestStats
dest_inc_they_rejected s = record s { we_accepted_they_rejected = inc s.we_accepted_they_rejected }

abbrev pub dest_inc_they_accepted : DestStats → DestStats
dest_inc_they_accepted s = record s { we_rejected_they_accepted = inc s.we_rejected_they_accepted }

unfoldable pub get_dest_stats_map : DestStats → Assoc String ℤ
get_dest_stats_map s =
    ("we_accepted_they_accepted", as_int s.we_accepted_they_accepted)
    ∷ ("we_accepted_they_rejected", as_int s.we_accepted_they_rejected)
    ∷ ("we_rejected_they_accepted", as_int s.we_rejected_they_accepted)
    ∷ []

abbrev pub inc_we_accepted_shares : SourceStats → SourceStats
inc_we_accepted_shares s = record s { we_accepted_shares = inc s.we_accepted_shares }

abbrev pub inc_we_rejected_shares : SourceStats → SourceStats
inc_we_rejected_shares s = record s { we_rejected_shares = inc s.we_rejected_shares }

abbrev pub inc_they_rejected : SourceStats → SourceStats
inc_they_rejected s = record s { we_accepted_they_rejected = inc s.we_accepted_they_rejected }

abbrev pub inc_they_accepted : SourceStats → SourceStats
inc_they_accepted s = record s { we_rejected_they_accepted = inc s.we_rejected_they_accepted }

unfoldable pub get_source_stats_map : SourceStats → Assoc String ℤ
get_source_stats_map s =
    ("we_accepted_shares", as_int s.we_accepted_shares)
    ∷ ("we_rejected_shares", as_int s.we_rejected_shares)
    ∷ ("we_accepted_they_rejected", as_int s.we_accepted_they_rejected)
    ∷ ("we_rejected_they_accepted", as_int s.we_rejected_they_accepted)
    ∷ []
