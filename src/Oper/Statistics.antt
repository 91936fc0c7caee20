-- ===== src/Oper/Statistics.antt =====
-- interface_statistics_cb: the eight counters of one interface; and nat_cap_state_cb, the one
-- capability of NAT.
use archived_sweetcomb.Prelude.{
  ℕ, String, ◌<>◌, true, not, none, some, List, [], ◌∷◌, if◌then◌else◌, is_empty,
}
use archived_sweetcomb.Outcome.{Outcome, returns, ◌>>=◌, deref}
use archived_sweetcomb.Sysrepo.{
  SrError, ok, inval_arg, nomem, is_ok, uint64_t, bool_t, uint64_val, bool_val, SrVal, Xpath,
}
use archived_sweetcomb.Vom.{Vom}
use archived_sweetcomb.Oper.{Reply, new_values, put_all}

-- The members of interface::stats_t that are read.
pub record Stats : Type 0 where
  pub rx_bytes : ℕ
  pub rx_unicast : ℕ
  pub rx_broadcast : ℕ
  pub rx_multicast : ℕ
  pub tx_bytes : ℕ
  pub tx_unicast : ℕ
  pub tx_broadcast : ℕ
  pub tx_multicast : ℕ

unfoldable pub counters : String → Stats → List SrVal
counters xpath s =
    counter "/in-octets" s.rx_bytes
    ∷ counter "/in-unicast-pkts" s.rx_unicast
    ∷ counter "/in-broadcast-pkts" s.rx_broadcast
    ∷ counter "/in-multicast-pkts" s.rx_multicast
    ∷ counter "/out-octets" s.tx_bytes
    ∷ counter "/out-unicast-pkts" s.tx_unicast
    ∷ counter "/out-broadcast-pkts" s.tx_broadcast
    ∷ counter "/out-multicast-pkts" s.tx_multicast
    ∷ []
  where
    counter : String → ℕ → SrVal
    counter leaf n = record { xpath = xpath <> leaf; type = uint64_t; datum = uint64_val n }

module _ (X : Xpath) (V : Vom) (get_stats : V.Db → V.InterfaceRef → Stats) where
  unfoldable pub interface_statistics_cb : (ℕ → SrError) → V.Db → String → Outcome Reply
  unfolding counters
  interface_statistics_cb sr_new_values db xpath = do
    intf_name ← deref (X.key_value xpath "interface" "name")
    (if is_empty intf_name
        then returns (record { rc = inval_arg; values = [] })
        else elim (V.find db intf_name) [
          | none ↦ returns (record { rc = ok; values = [] })
          | some intf ↦
              if not (is_ok (sr_new_values 8))
              then returns (record { rc = sr_new_values 8; values = [] })
              else (do
                a ← put_all (counters xpath (get_stats db intf)) (new_values 8)
                returns (record { rc = ok; values = a.written }))
        ])

unfoldable pub nat_cap_state_cb : (ℕ → SrError) → String → Outcome Reply
nat_cap_state_cb sr_new_values xpath =
    if not (is_ok (sr_new_values 1)) then returns (record { rc = nomem; values = [] }) else (do
      a ←
          put_all
            (record { xpath = xpath <> "/static-mapping"; type = bool_t; datum = bool_val true }
              ∷ [])
            (new_values 1)
      returns (record { rc = ok; values = a.written }))
