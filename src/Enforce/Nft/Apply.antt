-- ===== src/Enforce/Nft/Apply.antt =====
-- `apply` of enforce/nft.rs: one transaction of `nft -f -`.
use degc.Prelude.{Result, ok, err, if◌then◌else◌}
use degc.Text.{Text, str, trim}
use degc.Api.{Error, nft_failed}
use degc.Enforce.Host.{
  Programs, NftOutput, nft_not_spawned, no_stdin, write_failed, wait_failed, nft_exited, Exec,
  run_nft,
}

unfoldable pub judge : NftOutput → Result Error (Unit {0})
judge nft_not_spawned = err (nft_failed (str "spawning nft (is nftables installed?)"))
judge no_stdin = err (nft_failed (str "nft stdin unavailable"))
judge write_failed = err (nft_failed (str "writing ruleset to nft"))
judge wait_failed = err (nft_failed (str "waiting for nft"))
judge (nft_exited success e) = if success then ok tt else err (nft_failed (trim e))

module _ {S : Type 0} (p : Programs S) where
  unfoldable pub apply : Text → Exec S (Unit {0})
  apply script w = let (o, w') = run_nft p script w in (judge o, w')
