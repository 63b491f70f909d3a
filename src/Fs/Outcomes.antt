-- ===== src/Fs/Outcomes.antt =====
-- `read` and `write` of fs_ops.rs on every branch, and when `patch` succeeds.
use synth_hires_bridge.Prelude.{
  ℕ, zero, suc, ◌≤◌, ◌<◌, min, String, Bool, true, false, Option, none, some, List, [], ◌∷◌, ◌≡◌,
  refl, ap, ◌∙◌, arith, str_eq, length, take, length-take, ltb, ltb-false, inl, inr, ◌⊎◌, ◌↔◌, All,
  if◌then◌else◌,
}
use synth_hires_bridge.Capability.Paths.{FilePath, Platform}
use synth_hires_bridge.Capability.Resolve.{Canonicalize, parent}
use synth_hires_bridge.Capability.{
  GateDecision, allow, require_consent, deny, CapabilityGate, check_path,
}
use synth_hires_bridge.Errors.{DaemonError, Result, ok, err}
use synth_hires_bridge.Fs.{base64_decode}
use synth_hires_bridge.Fs.RoundTrip.{IsByte, base64_decode-base64_encode}
use synth_hires_bridge.Fs.Disk.{Disk, Faults, attempt, read_file, write_via_unique_tmp}
use synth_hires_bridge.Fs.Atomic.{write_via_unique_tmp-Replaced, attempt-Replaced}
use synth_hires_bridge.Fs.Writes.{Untouched, Holds, Outcome, write_and_read-Outcome, bytes_eq_refl}
use synth_hires_bridge.Fs.Ops.{
  FsReadRequest, FsReadResult, FsWriteRequest, FsWriteResult, and_then, reading, max_write_bytes,
  gate_decision, verdict, gate_for_path, read_limit, bounded, read, wrote, write_under, write,
}

All-take : (P : ℕ → Type 0) (n : ℕ) (xs : List ℕ) → All P xs → All P (take n xs)
All-take P zero xs h = tt
All-take P (suc n) [] h = tt
All-take P (suc n) (x ∷ xs) h = (h.0, All-take P n xs h.1)

module _ (platform : Platform) (canonicalize : Canonicalize) (display : FilePath → String) where
  -- What a read may return of a disk.
  abbrev pub ReadOutcome : GateDecision → Disk → FsReadRequest → Result FsReadResult × Disk → Type 0
  ReadOutcome decision d req (ok r, after) =
      (decision ≡ allow)
      × (after ≡ d)
      × ((file : List ℕ) × (read_file d (display req.path) ≡ some file)
          × (r.size ≡ min (read_limit req) (length file))
          × ((r.truncated ≡ true) ↔ (r.size < length file))
          × (All IsByte file → base64_decode r.content_base64 ≡ some (take (read_limit req) file)))
  ReadOutcome decision d req (err e, after) = after ≡ d

  file-ReadOutcome :
      (o : Option (List ℕ)) (d : Disk) (req : FsReadRequest)
      → read_file d (display req.path) ≡ o
      → ReadOutcome allow d req (reading o d λ file. (ok (bounded (read_limit req) file), d))
  unfolding bounded
  file-ReadOutcome none d req e = refl
  file-ReadOutcome (some file) d req e = (
    refl,
    refl,
    (
      file,
      e,
      length-take (read_limit req) file,
      ground arith,
      (λ h.
          base64_decode-base64_encode (take (read_limit req) file)
            (All-take IsByte (read_limit req) file h)),
    ),
  )

  gated-ReadOutcome :
      (decision : GateDecision) (d : Disk) (req : FsReadRequest)
      → ReadOutcome decision d req (
          and_then
            (verdict display "desktop.fs.read" req.path decision, d)
            λ d₁.
              reading
                (read_file d₁ (display req.path))
                d₁
                λ file. (ok (bounded (read_limit req) file), d₁))
  unfolding verdict
  gated-ReadOutcome allow d req = file-ReadOutcome (read_file d (display req.path)) d req refl
  gated-ReadOutcome require_consent d req = refl
  gated-ReadOutcome deny d req = refl

  -- A read changes no file; where it succeeds the gate allowed the path as it is written, and the answer
  -- holds the first bytes of the file, as many as were asked for, 1 MiB if nothing was asked, and at
  -- most 10 MiB, encoded so that decoding gives them back; it says that it is truncated exactly
  -- where the file has more.
  pub read-ReadOutcome :
      (gate : CapabilityGate) (d : Disk) (req : FsReadRequest)
      → ReadOutcome
          (check_path platform gate "desktop.fs.read" req.path)
          d
          req
          (read platform canonicalize display gate d req)
  unfolding read gate_for_path gate_decision
  read-ReadOutcome gate d req =
      gated-ReadOutcome (check_path platform gate "desktop.fs.read" req.path) d req

  -- What a write may do to a disk.
  abbrev pub WriteOutcome :
      GateDecision → Disk → String → FsWriteRequest → Result FsWriteResult × Disk → Type 0
  WriteOutcome decision d tmp req (ok r, after) =
      (decision ≡ allow)
      × (length req.content ≤ max_write_bytes)
      × (r.verified ≡ true)
      × (r.bytes_written ≡ length req.content)
      × Holds d (display req.path) tmp req.content after
  WriteOutcome decision d tmp req (err e, after) =
      Untouched tmp d after
      ⊎ ((decision ≡ allow) × Holds d (display req.path) tmp req.content after)

  reported :
      (d : Disk) (tmp : String) (req : FsWriteRequest)
      → length req.content ≤ max_write_bytes
      → (r : Result FsWriteResult × Disk)
      → Outcome d (display req.path) tmp req.content (wrote req.content) r
      → WriteOutcome allow d tmp req r
  unfolding wrote
  reported d tmp req small (ok r, after) (is, holds) = (
    refl,
    small,
    ap (λ x. x.verified) is ∙ bytes_eq_refl req.content,
    ap (λ x. x.bytes_written) is,
    holds,
  )
  reported d tmp req small (err e, after) (inl kept) = inl kept
  reported d tmp req small (err e, after) (inr holds) = inr (refl, holds)

  under-WriteOutcome :
      (f : Faults) (d : Disk) (tmp : String) (req : FsWriteRequest) (up : Option FilePath)
      → str_eq tmp (display req.path) ≡ false
      → length req.content ≤ max_write_bytes
      → WriteOutcome allow d tmp req (write_under platform canonicalize display f d tmp req up)
  unfolding write_under
  under-WriteOutcome f d tmp req none apart small = inl (λ p _. refl)
  under-WriteOutcome f d tmp req (some up) apart small = reported d tmp req small _ (
      write_and_read-Outcome d (display req.path) tmp req.content (wrote req.content) f
        (attempt f.create_dir_all d (write_via_unique_tmp f d (display req.path) tmp req.content))
        (attempt-Replaced d (display req.path) tmp req.content f.create_dir_all d _ (λ p _. refl)
          (write_via_unique_tmp-Replaced f d (display req.path) tmp req.content apart)))

  gated-WriteOutcome :
      (decision : GateDecision) (d : Disk) (tmp : String) (req : FsWriteRequest)
      (next : Disk → Result FsWriteResult × Disk)
      → WriteOutcome allow d tmp req (next d)
      → WriteOutcome decision d tmp req
          (and_then (verdict display "desktop.fs.write" req.path decision, d) next)
  unfolding verdict
  gated-WriteOutcome allow d tmp req next h = h
  gated-WriteOutcome require_consent d tmp req next h = inl (λ p _. refl)
  gated-WriteOutcome deny d tmp req next h = inl (λ p _. refl)

  sized-WriteOutcome :
      (f : Faults) (d : Disk) (tmp : String) (req : FsWriteRequest) (large : Bool) (e : DaemonError)
      → str_eq tmp (display req.path) ≡ false
      → ltb max_write_bytes (length req.content) ≡ large
      → WriteOutcome allow d tmp req (
          if large
          then (err e, d)
          else write_under platform canonicalize display f d tmp req (parent req.path))
  sized-WriteOutcome f d tmp req true e apart h = inl (λ p _. refl)
  sized-WriteOutcome f d tmp req false e apart h =
      under-WriteOutcome f d tmp req (parent req.path) apart (ltb-false _ _ h)

  -- A write that succeeds was allowed by the gate, has at most 64 MiB and was verified: the file holds
  -- the content and no other changed but the temporary one. A write that fails left every file as
  -- it was, but the temporary one, unless only the reading back failed. The temporary name is not
  -- the target's.
  pub write-WriteOutcome :
      (gate : CapabilityGate) (f : Faults) (d : Disk) (tmp : String) (req : FsWriteRequest)
      → str_eq tmp (display req.path) ≡ false
      → WriteOutcome
          (gate_decision platform canonicalize display gate "desktop.fs.write" req.path)
          d
          tmp
          req
          (write platform canonicalize display gate f d tmp req)
  unfolding write gate_for_path
  write-WriteOutcome gate f d tmp req apart =
      gated-WriteOutcome
        (gate_decision platform canonicalize display gate "desktop.fs.write" req.path) d tmp req _
        (sized-WriteOutcome f d tmp req (ltb max_write_bytes (length req.content)) _ apart refl)
