-- ===== src/Nat.antt =====
-- src/plugins/ietf/ietf_nat.cpp: the class nat_static_builder, the table of static mappings and the
-- callback nat_mapping_table_config_cb.
pub mod Builder
pub mod Mappings
pub mod Consistency
pub mod Deletions
pub mod Total
pub mod Refusals
pub mod Sequence
pub mod Replay
use archived_sweetcomb.Prelude.{
  ℕ, String, Bool, true, not, ◌&&◌, Option, none, some, List, [], ◌∷◌, ◌==◌, eqb, if◌then◌else◌,
}
use archived_sweetcomb.Outcome.{Outcome, returns, ◌>>=◌, deref}
use archived_sweetcomb.Sysrepo.{
  SrError, ok, inval_arg, unsupported, operation_failed, is_ok, SrEvent, is_verify, created,
  modified, deleted, moved, SrVal, read_string, read_uint32, Change, Session, Xpath, node_name_eq,
  foreach_change, arg_check2,
}
use archived_sweetcomb.Vom.{Vom}
use archived_sweetcomb.Prefix.{
  Prefix, address_of, default_prefix, make_prefix, prefix_is_empty, decimal,
}

-- What the stack holds where the code leaves a variable uninitialised: the flags and the index of
-- the callback, and the lengths of the four prefixes of its builder.
pub record NatGarbage : Type 0 where
  pub create : Bool
  pub remove : Bool
  pub xindex : ℕ
  pub internal_src_len : ℕ
  pub external_src_len : ℕ
  pub internal_dest_len : ℕ
  pub external_dest_len : ℕ

-- The callback for changes of a NAT instance accepts them all and does nothing.
unfoldable pub nat_instance_config_cb {ℓ} :
    {S : Type ℓ} → Option Session → Option String → SrEvent → S → SrError × S
nat_instance_config_cb ds xpath event s = (ok, s)

module _ (V : Vom) where
  pub record NatStaticBuilder : Type 0 where
    pub m_type : String
    pub m_internal_src : Prefix V
    pub m_external_src : Prefix V
    pub m_internal_dest : Prefix V
    pub m_external_dest : Prefix V
    pub m_inside : V.Address
    pub m_outside : V.Address

  -- `inside`, `outside` and `set_type`
  abbrev pub nat_inside : NatStaticBuilder → V.Address
  nat_inside b = b.m_inside

  abbrev pub nat_outside : NatStaticBuilder → V.Address
  nat_outside b = b.m_outside

  abbrev pub set_nat_type : NatStaticBuilder → String → NatStaticBuilder
  set_nat_type b t = record b { m_type = t }

  unfoldable pub fresh_nat_builder : NatGarbage → NatStaticBuilder
  unfolding default_prefix
  fresh_nat_builder g = record {
    m_type = "";
    m_internal_src = default_prefix V g.internal_src_len;
    m_external_src = default_prefix V g.external_src_len;
    m_internal_dest = default_prefix V g.internal_dest_len;
    m_external_dest = default_prefix V g.external_dest_len;
    m_inside = V.no_address;
    m_outside = V.no_address;
  }

  -- `build`: the builder behind the call, and the object or null.
  unfoldable pub build_nat : NatStaticBuilder → NatStaticBuilder × Option V.NatStatic
  build_nat b =
      if not (b.m_type == "static")
      then (b, none)
      else if not (prefix_is_empty V b.m_internal_src) && not (prefix_is_empty V b.m_external_src)
      then finished (address_of V b.m_internal_src) (address_of V b.m_external_src)
      else if not (prefix_is_empty V b.m_internal_dest) && not (prefix_is_empty V b.m_external_dest)
      then finished (address_of V b.m_internal_dest) (address_of V b.m_external_dest)
      else (b, none)
    where
      finished : V.Address → V.Address → NatStaticBuilder × Option V.NatStatic
      finished inside outside =
          (record b { m_inside = inside; m_outside = outside }, some (V.nat_static inside outside))

  -- static_mapping_table, a std::map from the index of an entry.
  abbrev pub NatTable : Type 0
  NatTable = ℕ → Option (V.Address × V.Address)

  unfoldable pub assign : NatTable → ℕ → V.Address × V.Address → NatTable
  assign table xindex pair i = if eqb i xindex then some pair else table i

  unfoldable pub erase : NatTable → ℕ → NatTable
  erase table xindex i = if eqb i xindex then none else table i

  -- The variables of the callback.
  pub record NatLocals : Type 0 where
    pub builder : NatStaticBuilder
    pub xindex : ℕ
    pub create : Bool
    pub remove : Bool

  -- The state that outlives it.
  pub record NatState : Type 0 where
    pub db : V.Db
    pub table : NatTable

  unfoldable pub nat_start : NatGarbage → NatLocals
  unfolding fresh_nat_builder
  nat_start g = record {
    builder = fresh_nat_builder g;
    xindex = g.xindex;
    create = g.create;
    remove = g.remove;
  }

  -- What follows the call of `build`: the object is written, and the table takes its addresses.
  unfoldable pub write_mapping :
      NatState → ℕ → NatStaticBuilder × Option V.NatStatic → SrError × NatState
  unfolding assign
  write_mapping s xindex (b, none) = (inval_arg, s)
  write_mapping s xindex (b, some ns) =
      let (db', done) = V.write_nat s.db (decimal xindex) ns in
      if done
      then (ok, record { db = db'; table = assign s.table xindex (nat_inside b, nat_outside b) })
      else (operation_failed, record s { db = db' })

  -- From `if (create)` behind the loop to the end.
  unfoldable pub nat_commit : NatLocals → NatState → SrError × NatState
  unfolding write_mapping erase
  nat_commit l s =
      if l.create
      then write_mapping s l.xindex (build_nat l.builder)
      else if l.remove
      then (ok, record { db = V.remove s.db (decimal l.xindex); table = erase s.table l.xindex })
      else (ok, s)

-- How a round of the loop ends: with the next change, or by `goto error`.
pub data NatRound (V : Vom) : Type 0 where
  continue : NatLocals V → NatRound V
  error : SrError → NatRound V

module _ (V : Vom) where
  -- What follows a round: the rest of the loop, or `goto error`.
  abbrev pub next_round : (NatLocals V → Outcome (NatRound V)) → NatRound V → Outcome (NatRound V)
  next_round rest (continue l) = rest l
  next_round rest (error rc) = returns (error rc)

module _ (X : Xpath) (V : Vom) where
  -- A prefix that is read from a value and parsed, and the locals that take it.
  abbrev pub with_prefix : SrVal → (Prefix V → NatLocals V) → Outcome (NatRound V)
  with_prefix ne update = do
    text ← read_string ne
    p ← make_prefix V text
    returns (continue (update p))

  -- The branch SR_OP_CREATED, on the new value.
  unfoldable pub on_nat_created : NatLocals V → SrVal → Outcome (NatRound V)
  on_nat_created l ne =
      if node_name_eq X ne.xpath "index"
      then (do i ← read_uint32 ne; returns (continue (record l { xindex = i; create = true })))
      else if node_name_eq X ne.xpath "type"
      then (do t ← read_string ne; returns (continue (record l { builder = set_nat_type V b t })))
      else if node_name_eq X ne.xpath "internal-src-address"
      then with_prefix ne (λ p. record l { builder = record b { m_internal_src = p } })
      else if node_name_eq X ne.xpath "external-src-address"
      then with_prefix ne (λ p. record l { builder = record b { m_external_src = p } })
      else if node_name_eq X ne.xpath "internal-dst-address"
      then with_prefix ne (λ p. record l { builder = record b { m_internal_dest = p } })
      else if node_name_eq X ne.xpath "external-dst-address"
      then with_prefix ne (λ p. record l { builder = record b { m_external_dest = p } })
      else returns (continue l)
    where
      b : NatStaticBuilder V
      b = l.builder

  -- The branch SR_OP_DELETED, on the old value.
  unfoldable pub on_nat_deleted : NatLocals V → SrVal → Outcome (NatRound V)
  on_nat_deleted l ol =
      if node_name_eq X ol.xpath "index"
      then (do i ← read_uint32 ol; returns (continue (record l { xindex = i; remove = true })))
      else returns (continue l)

  -- The switch over the operation.
  unfoldable pub on_nat_change : NatLocals V → Change → Outcome (NatRound V)
  unfolding on_nat_created on_nat_deleted
  on_nat_change l c = elim c.op [
    | created ↦ deref c.new_val >>= on_nat_created l
    | deleted ↦ deref c.old_val >>= on_nat_deleted l
    | modified ↦ returns (error unsupported)
    | moved ↦ returns (error unsupported)
  ]

  -- The loop.
  unfoldable pub on_nat_changes : NatLocals V → List Change → Outcome (NatRound V)
  on_nat_changes l [] = returns (continue l)
  on_nat_changes l (c ∷ cs) = do
    round ← on_nat_change l c
    next_round V (λ l'. on_nat_changes l' cs) round

  unfoldable pub nat_finish : NatState V → NatRound V → Outcome (SrError × NatState V)
  unfolding nat_commit
  nat_finish s (continue l) = returns (nat_commit V l s)
  nat_finish s (error rc) = returns (rc, s)

  -- The callback, without what it frees; a null session or a null XPath is `none`. Some of its error
  -- paths free the iterator twice, or one that is not set: nat_guarded in Resources/Mappings.antt is
  -- the callback with that undefined behaviour.
  unfoldable pub nat_mapping_table_config_cb :
      NatGarbage
      → Option Session
      → Option String
      → SrEvent
      → NatState V
      → Outcome (SrError × NatState V)
  unfolding on_nat_changes nat_finish nat_start
  nat_mapping_table_config_cb g ds xpath event s =
      arg_check2 (returns (inval_arg, s)) ds xpath (λ ds' xpath'.
        if not (is_verify event)
        then returns (ok, s)
        else if not (is_ok (ds'.get_changes_iter xpath'))
        then returns (ds'.get_changes_iter xpath', s)
        else on_nat_changes (nat_start V g) (foreach_change event (ds'.changes xpath'))
          >>= nat_finish s)
