-- ===== src/Enforce/Backend/Loaded.antt =====
-- Where the system backend gives ok, `nft` has taken the script.
use degc.Prelude.{◌≡◌, refl, true, false, Result, ok, err, ap}
use degc.Text.{Text}
use degc.Api.{Error}
use degc.Enforce.Host.{
  Programs, World, Exec, continue, ◌>>=◌, ◌>>◌, NftOutput, nft_not_spawned, no_stdin, write_failed,
  wait_failed, nft_exited, run_nft,
}
use degc.Enforce.Route.Preflight.{preflight}
use degc.Enforce.Route
use degc.Enforce.Nft
use degc.Enforce.Compile.{Desired}
use degc.Enforce.Backend.{system, apply}

-- What ran before something that gave ok gave ok.
before_ok :
    {S A B : Type 0} (r : Result Error A × World S) (next : A → Exec S B) {b : B} {after : World S}
    → continue r.0 next r.1 ≡ (ok b, after)
    → (a : A) × (w : World S) × (r ≡ (ok a, w)) × (next a w ≡ (ok b, after))
before_ok (ok a, w) next h = (a, w, refl, h)
before_ok (err e, w) next h = absurd (let f = ap (λ (x : Result Error _ × World _). x.0) h in cc)

-- `nft` was run on the script and has exited with success.
abbrev pub IsTaken : {S : Type 0} → Programs S → Text → Type 0
IsTaken {S} p script = (s : S) × (error : Text) × ((p.nft script s).0 ≡ nft_exited true error)

judge-exited :
    (o : NftOutput) → Nft.Apply.judge o ≡ ok tt → (error : Text) × (o ≡ nft_exited true error)
unfolding Nft.Apply.judge
judge-exited nft_not_spawned h = absurd (cc)
judge-exited no_stdin h = absurd (cc)
judge-exited write_failed h = absurd (cc)
judge-exited wait_failed h = absurd (cc)
judge-exited (nft_exited true error) h = (error, refl)
judge-exited (nft_exited false error) h = absurd (cc)

module _ {S : Type 0} (p : Programs S) where
  pub apply_system-IsTaken :
      (d : Desired) (before after : World S)
      → apply p system d before ≡ (ok tt, after)
      → IsTaken p d.nft
  unfolding apply ◌>>=◌ Nft.Apply.apply run_nft
  apply_system-IsTaken d before after h =
      let (_, w, _, h1) =
        before_ok (preflight p d.guards before)
          (λ ignored. Nft.Apply.apply p d.nft >> Route.Apply.apply p d.ip) h in
      let (u, w2, e, _) =
        before_ok (Nft.Apply.apply p d.nft w) (λ ignored. Route.Apply.apply p d.ip) h1 in
      let (error, exit) =
        judge-exited (p.nft d.nft w.host).0
          (ap (λ (x : Result Error (Unit {0}) × World S). x.0) e) in
      (w.host, error, exit)
