-- ===== src/Enforce/Host.antt =====
-- The host as degc meets it: the programs `ip` and `nft`, which the model takes as parameters that
-- answer a command and change a state of their own. Each command that is run is kept in a trace.
use degc.Prelude.{Bool, List, [], ◌∷◌, ◌++◌, Result, ok, err}
use degc.Text.{Text}
use degc.Api.{Error}

-- What `Command::output` gives: no process, or its success, standard output and standard error.
pub data Output : Type 0 where
  not_spawned : Output
  exited : Bool → Text → Text → Output

-- `nft -f -` may also fail on its standard input, or while it is awaited.
pub data NftOutput : Type 0 where
  nft_not_spawned no_stdin write_failed wait_failed : NftOutput
  nft_exited : Bool → Text → NftOutput

pub data Action : Type 0 where
  ip_run : List Text → Action
  nft_run : Text → Action

pub record World (S : Type 0) : Type 0 where
  pub host : S
  pub trace : List Action

pub record Programs (S : Type 0) : Type 0 where
  pub ip : List Text → S → Output × S
  pub nft : Text → S → NftOutput × S

-- Code that runs commands and may fail; what it ran before an error stays run.
abbrev pub Exec : Type 0 → Type 0 → Type 0
Exec S A = World S → Result Error A × World S

module _ {S A : Type 0} where
  abbrev pub lift : Result Error A → Exec S A
  lift r w = (r, w)

module _ {S A B : Type 0} where
  abbrev pub continue : Result Error A → (A → Exec S B) → Exec S B
  continue (ok a) f w = f a w
  continue (err e) f w = (err e, w)

  infixl 5 ◌>>=◌ ◌>>◌
  unfoldable pub ◌>>=◌ : Exec S A → (A → Exec S B) → Exec S B
  ◌>>=◌ m f w = let (r, w') = m w in continue r f w'

  abbrev pub ◌>>◌ : Exec S A → Exec S B → Exec S B
  first >> next = first >>= λ ignored. next

module _ {S : Type 0} (p : Programs S) where
  unfoldable pub run_ip : List Text → World S → Output × World S
  run_ip args w =
      let (o, h) = p.ip args w.host in (o, record { host = h; trace = w.trace ++ ip_run args ∷ [] })

  unfoldable pub run_nft : Text → World S → NftOutput × World S
  run_nft script w =
      let (o, h) = p.nft script w.host in
      (o, record { host = h; trace = w.trace ++ nft_run script ∷ [] })
