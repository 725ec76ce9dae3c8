-- ===== src/Durable/Store/Invariant.antt =====
-- The invariant of the checkpoint store: each status file is the image of a status that is filed
-- under its own directory and that `from_dict` reads back unchanged.
use cognitive_evolve.Prelude.{
  String, ◌≡◌, refl, eq_refl, sym, ap, subst, false, Option, none, some, ◌==◌, eq_iff, put, get-put,
  Dict, if◌then◌else◌, Bool-cases, inl, inr,
}
use cognitive_evolve.Exec.Ensures.{Post}
use cognitive_evolve.Json.{Fields, Python, Result, ok, err}
use cognitive_evolve.Durable.StepState.{StepStatus, status_to_dict}
use cognitive_evolve.Durable.StepState.RoundTrip.{IsStorable, status_from_dict-status_to_dict}
use cognitive_evolve.Durable.Store.{
  StepFiles, World, files_at, status_dir, present, decode_status, write_status,
}

pub files_at-put :
    (d : Dict StepFiles) (p q : String) (f : StepFiles)
    → files_at (put d p f) q ≡ (if p == q then f else files_at d q)
unfolding files_at
files_at-put d p q f = elim (Bool-cases (p == q)) [
  | inl e ↦ rw get-put (rw e)
  | inr e ↦ rw get-put (rw e)
]

pub files_at-put_self :
    (d : Dict StepFiles) (p : String) (f : StepFiles) → files_at (put d p f) p ≡ f
files_at-put_self d p f = rw (files_at-put, eq_refl)

module _ (py : Python) where
  -- `s` is read back as it is, and stands in the directory `p`.
  pub record IsFiled (s : StepStatus) (p : String) : Type 0 where
    pub storable : IsStorable s
    pub dir : status_dir py s ≡ p

  abbrev pub Filed : Option Fields → String → Type 0
  Filed none p = Unit
  Filed (some d) p = (s : StepStatus) × (d ≡ status_to_dict s) × IsFiled s p

  pub record Inv (w : World) : Type 0 where
    pub filed : (p : String) → Filed (files_at w.files p).status p
    pub clock : (w.now == "") ≡ false

  pub Inv-put :
      {w : World} (p : String) (f : StepFiles)
      → Inv w
      → Filed f.status p
      → Inv (record w { files = put w.files p f })
  Inv-put {w} p f inv h = record {
    clock = inv.clock;
    filed = λ q.
        rw (ap (λ (g : StepFiles). g.status) (files_at-put w.files p q f))
          (elim (Bool-cases (p == q)) [
            | inl e ↦ rw e (subst (Filed f.status) ((eq_iff p q).0 e) h)
            | inr e ↦ rw e (inv.filed q)
          ]);
  }

  pub decode_status-status_to_dict :
      (now : String) (s : StepStatus)
      → IsStorable s
      → decode_status py now (some (status_to_dict s)) ≡ ok (some s)
  unfolding decode_status status_to_dict
  decode_status-status_to_dict now s h = ap present (status_from_dict-status_to_dict py now s h)

  abbrev pub Decoded : Result (Option StepStatus) → Option Fields → String → Type 0
  Decoded (ok none) f p = Unit
  Decoded (ok (some s)) f p = IsFiled s p × (f ≡ some (status_to_dict s))
  Decoded (err e) f p = ⊥

  -- Reading a filed status never raises.
  pub decode_status-Filed :
      (now : String) (f : Option Fields) (p : String)
      → Filed f p
      → Decoded (decode_status py now f) f p
  unfolding decode_status
  decode_status-Filed now none p h = tt
  decode_status-Filed now (some d) p (s, e, h) =
      subst (λ c. Decoded (decode_status py now (some c)) (some c) p) (sym e)
        (rw (decode_status-status_to_dict now s h.storable) (h, refl))

  -- Writing a status that can be stored keeps the invariant, and the status is then in its file.
  pub write_status-Post :
      (s : StepStatus) (p : String) {w : World}
      → Inv w
      → IsFiled s p
      → Post
          (λ _ v.
            Inv v
            × ((files_at v.files p).status ≡ some (status_to_dict s))
            × ((files_at v.files p).output ≡ (files_at w.files p).output))
          Inv
          (write_status py s w)
  unfolding write_status
  write_status-Post s p {w} inv h = rw h.dir (
    Inv-put p _ inv (s, refl, h),
    ap (λ (f : StepFiles). f.status) (files_at-put_self w.files p _),
    ap (λ (f : StepFiles). f.output) (files_at-put_self w.files p _),
  )
