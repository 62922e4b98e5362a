-- ===== src/Handlers/Std/Returns/Calls.antt =====
-- The calls of the services that write, and the setup that takes a buffer, always return.
use vdiag_server.Base.{
  ℕ, ◌≤◌, ◌≡◌, ◌⊎◌, inl, inr, refl, true, none, some, List, length, take, drop, replicate,
  length-drop, length-take, length-replicate, length-overwrite, Option-cases, arith,
}
use vdiag_server.Base.Exec.{done, Exec-cases}
use vdiag_server.Base.Ptr.{Ptr, null, block, wild}
use vdiag_server.Can.{CanMessage, IsMessage}
use vdiag_server.Config.{DataIdentifier, EcuConfig}
use vdiag_server.Os.{Os}
use vdiag_server.Uds.{UdsState}
use vdiag_server.Uds.Codes.{Nrc, code, is_positive}
use vdiag_server.Uds.Interface.{WrbaParams, WrbaResult, WrbiParams, WrbiResult}
use vdiag_server.Handlers.Address.Value.{byte-lt}
use vdiag_server.Handlers.DidMap.{DidMapping, mapping_of, cleared}
use vdiag_server.Handlers.DidMap.Lookup.{HasEntries, last_entry, entries, init_mapping_lem}
use vdiag_server.Handlers.Wrba.{wrba}
use vdiag_server.Handlers.Wrbi.{Globals, wrbi_setup, wrbi}
use vdiag_server.Handlers.Std.ById.{named_did, request_did_lem}
use vdiag_server.Memory.Result.{write_memory_returns}

module _ (os : Os) where
  pub wrba_returns :
      (puds : UdsState) (p : WrbaParams) (bs : List ℕ) (s : os.State)
      → p.pdata ≡ block bs
      → p.usz ≤ length bs
      → (res : WrbaResult) × (t : os.State) × (wrba os (some puds) p s ≡ done (res, t))
  unfolding wrba
  wrba_returns puds p bs s held room =
      let (r, t, ran) =
        write_memory_returns os puds.ecucfg.memory.file_path p.uaddr p.usz bs s room in
      elim (Exec-cases (wrba os (some puds) p s)) [
        | inl stuck ↦ absurd (ground (arith, stuck, held, ran))
        | inr ended ↦ ended
      ]

  pub wrbi_returns :
      (puds : UdsState) (p : WrbiParams) (bs : List ℕ) (s : os.State)
      → p.pdata ≡ block bs
      → p.usz ≤ length bs
      → (res : WrbiResult) × (t : os.State) × (wrbi os (some puds) p s ≡ done (res, t))
  unfolding wrbi
  wrbi_returns puds p bs s held room =
      let (r, t, ran) =
        write_memory_returns os puds.ecucfg.memory.file_path p.uaddr p.usz bs s room in
      elim (Exec-cases (wrbi os (some puds) p s)) [
        | inl stuck ↦ absurd (ground (arith, stuck, held, ran))
        | inr ended ↦ ended
      ]

-- Every entry that an identifier is looked up by fits a request behind its three bytes.
abbrev pub EntriesFit : EcuConfig → Type 0
EntriesFit c =
    (udid : ℕ) (d : DataIdentifier) → last_entry (entries c) udid ≡ some d → d.size ≤ 4093

-- Memory for the buffer of WriteDataByIdentifier is always given.
abbrev pub AlwaysAllocates : Os → Type 0
AlwaysAllocates os = (s : os.State) → (os.calloc 4096 s).0 ≡ true

entry_fits :
    (c : EcuConfig) (udid : ℕ) (mapping : DidMapping)
    → EntriesFit c
    → mapping ≡ (elim (last_entry (entries c) udid) [ none ↦ cleared udid | some d ↦ mapping_of d ])
    → mapping.data_size ≤ 4093
entry_fits c udid mapping small looked = elim (Option-cases (last_entry (entries c) udid)) [
  | inl e ↦ ground (arith, e)
  | inr (d, e) ↦ let few = small udid d e in ground (arith, e, few)
]

Ptr-cases : (p : Ptr) → (p ≡ null) ⊎ ((p ≡ wild) ⊎ ((bs : List ℕ) × (p ≡ block bs)))
Ptr-cases null = inl refl
Ptr-cases wild = inr (inl refl)
Ptr-cases (block bs) = inr (inr (bs, refl))

module _ (os : Os) where
  -- The setup of WriteDataByIdentifier: a buffer is left in the parameters, and what is accepted
  -- fits it.
  pub wrbi_setup_returns :
      (puds : UdsState) (req : CanMessage) (garbage : WrbiParams) (g : Globals os.State)
      → IsMessage req
      → HasEntries puds.ecucfg
      → EntriesFit puds.ecucfg
      → AlwaysAllocates os
      → (rc : Nrc) × (p : WrbiParams) × (bs : List ℕ) × (g' : Globals os.State) × (wrbi_setup os
            (some puds)
            req
            (some garbage)
            g
          ≡ done ((rc, some p), g'))
        × (p.pdata ≡ block bs)
        × (is_positive rc ≡ true → p.usz ≤ length bs)
  unfolding wrbi_setup code
  wrbi_setup_returns puds req garbage g msg counted small gives =
      let (table, filled, looked) = init_mapping_lem puds.ecucfg counted in
      let h1 = byte-lt msg 1 in
      let h2 = byte-lt msg 2 in
      let did = request_did_lem msg in
      let few =
        entry_fits puds.ecucfg (named_did req) (table (named_did req)) small
          (looked (named_did req) (omega arith)) in
      let got = gives g.fs in
      let n = (table (named_did req)).data_size in
      let sent = take n (drop 3 req.pdata) in
      let len = length-take n (drop 3 req.pdata) in
      let zeros = replicate {A = ℕ} 4096 0 in
      let zlen = length-replicate {A = ℕ} 4096 0 in
      let olen = length-overwrite sent zeros in
      let have : length (drop 3 req.pdata) ≡ 4093 =
        omega (arith, length-drop 3 req.pdata, msg.full) in
      elim (Exec-cases (wrbi_setup os (some puds) req (some garbage) g)) [
        | inl stuck ↦ absurd (ground (arith, stuck, filled, did, got, len, zlen, have, few))
        | inr ((rc, none), g', ran) ↦ absurd (ground (arith, ran, filled, did, got))
        | inr ((rc, some p), g', ran) ↦ elim (Ptr-cases p.pdata) [
          | inl e ↦ absurd (ground (arith, ran, e, filled, did, got, len, zlen, olen, have, few))
          | inr (inl e) ↦
              absurd (ground (arith, ran, e, filled, did, got, len, zlen, olen, have, few))
          | inr (inr (bs, e)) ↦ (
            rc,
            p,
            bs,
            g',
            ran,
            e,
            λ ok. ground (arith, ran, e, ok, filled, did, got, len, zlen, olen, have, few),
          )
        ]
      ]
