-- ===== src/Bundle/Commit/Steps.antt =====
-- The steps of a commit that went through: what it read, what it wrote, and in which worlds.
use mihomo_extension_sidecar.Common.{some, Bytes, arith, ◌≡◌, inl, inr, refl, Option-cases}
use mihomo_extension_sidecar.Bundle.Types.{BundleRecord, ok, Result-cases}
use mihomo_extension_sidecar.Bundle.Platform.{Platform}
use mihomo_extension_sidecar.Bundle.Store.{get, put, set_pointer}
use mihomo_extension_sidecar.Bundle.Commit.{live_record, next_pointer, prepare_commit}

module _ (pf : Platform) where
  open pf use {World, Config, decode_config}

  pub record Prepared (id current : Bytes) (w : World) : Type 0 where
    pub stored : BundleRecord
    pub config : Config
    pub stored_is : get pf id w ≡ ok stored
    pub config_is : decode_config stored.document ≡ some config
    pub put_ok : (put pf (live_record pf stored w) w).0 ≡ ok tt
    pub pointer_ok :
        (set_pointer pf (next_pointer id current) (put pf (live_record pf stored w) w).1).0 ≡ ok tt
    pub world : World
    pub world_is :
        world ≡ (set_pointer pf (next_pointer id current) (put pf (live_record pf stored w) w).1).1
    pub result_is : prepare_commit pf id current w ≡ (ok (live_record pf stored w, config), world)

  pub prepare_commit-Prepared :
      (id current : Bytes) (w : World) {x : BundleRecord × Config}
      → (prepare_commit pf id current w).0 ≡ ok x
      → Prepared id current w
  unfolding prepare_commit
  prepare_commit-Prepared id current w h = elim (Result-cases (get pf id w)) [
    | inr (e, q) ↦ absurd (ground arith)
    | inl (r, q) ↦ elim (Option-cases (decode_config r.document)) [
      | inl n ↦ absurd (ground arith)
      | inr (cfg, c) ↦ record {
        stored = r;
        config = cfg;
        stored_is = q;
        config_is = c;
        world = (set_pointer pf (next_pointer id current) (put pf (live_record pf r w) w).1).1;
        world_is = refl;
        put_ok = ground arith;
        pointer_ok = ground arith;
        result_is = ground arith;
      }
    ]
  ]
