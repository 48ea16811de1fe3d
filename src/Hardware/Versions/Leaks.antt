-- ===== src/Hardware/Versions/Leaks.antt =====
-- hardware.c: each file and each stream that the readers open is closed.
use tsn.Base.{List, [], ◌∷◌, ◌≡◌, refl, arith, Bool-cases, inl, inr, Option, none, some, CStr, ℕ}
use tsn.Runtime.{Env, Trace, Result, done, fault, exited, popen, open_file}
use tsn.Runtime.Always.{Always, trace_of}
use tsn.Runtime.Containers.{Containers}
use tsn.Runtime.Laws.{Returns, Returns-bind}
use tsn.Runtime.Leaks.{Leaks}
use tsn.Runtime.Streams.Laws.{read_all_total}
use tsn.Hardware.Texts.Laws.{read_trimmed_total}
use tsn.Hardware.Versions.{
  command_output, open_contents, read_both, dmi_version, read_model, model_version, sys_model_path,
  product_name_path, product_version_path,
}
use tsn.Hardware.Versions.Footprint.{ReadsTexts}

-- Where a run that returns stands.
Returns-trace_of :
    {A : Type 0} (R : Trace → Type 0) (r : Result A) → Returns (λ _ u. R u) r → R (trace_of r)
Returns-trace_of R (done a u) h = h
Returns-trace_of R (fault u) h = absurd h
Returns-trace_of R (exited u) h = absurd h

module _ (env : Env) (lib : Containers) where
  command_output-Leaks : (command : CStr) → Always (Leaks env) (command_output env lib command)
  unfolding command_output
  command_output-Leaks command = record {
    at = λ t.
        let start = popen command ∷ t in
        let (out, e) = read_all_total lib 62 (env.contents start) in
        elim (Bool-cases (env.succeeds start)) [
          | inl i ↦ rw (i, e) (omega arith, ground arith, omega arith)
          | inr i ↦ rw i (omega arith, ground arith, omega arith)
        ];
  }

  read_both-stays :
      (name version : Option (List ℕ)) (t : Trace)
      → Returns (λ _ u. u ≡ t) (read_both env lib name version t)
  unfolding read_both
  read_both-stays none version t = refl
  read_both-stays (some name) none t = refl
  read_both-stays (some name) (some version) t =
      let (first, e) = read_trimmed_total lib [] name in
      let (both, i) = read_trimmed_total lib (lib.ds_put_char first 32) version in rw (e, i) refl

  read_model-stays :
      (model : Option (List ℕ)) (t : Trace) → Returns (λ _ u. u ≡ t) (read_model env lib model t)
  unfolding read_model
  read_model-stays none t = refl
  read_model-stays (some model) t = let (out, e) = read_trimmed_total lib [] model in rw e refl

  dmi_version-Leaks : Always (Leaks env) (dmi_version env lib)
  unfolding dmi_version open_contents
  dmi_version-Leaks = record {
    at = λ t.
        let start = open_file product_version_path ∷ open_file product_name_path ∷ t in
        Returns-trace_of (Leaks env t) (dmi_version env lib t) (
          Returns-bind (λ _ u. u ≡ start) (λ _ u. Leaks env t u) (read_both env lib _ _) _ start
            (read_both-stays _ _ start) (λ _ u e. rw e (omega arith, omega arith, omega arith)));
  }

  model_version-Leaks : Always (Leaks env) (model_version env lib)
  unfolding model_version open_contents
  model_version-Leaks = record {
    at = λ t.
        let start = open_file sys_model_path ∷ t in
        Returns-trace_of (Leaks env t) (model_version env lib t) (
          Returns-bind (λ _ u. u ≡ start) (λ _ u. Leaks env t u) (read_model env lib _) _ start
            (read_model-stays _ start) (λ _ u e. rw e (omega arith, omega arith, omega arith)));
  }

  pub texts-Leaks : ReadsTexts env lib (Leaks env)
  texts-Leaks = record {
    probes = λ path t. (omega arith, omega arith, omega arith);
    commands = command_output-Leaks;
    dmi = dmi_version-Leaks;
    model = model_version-Leaks;
  }
