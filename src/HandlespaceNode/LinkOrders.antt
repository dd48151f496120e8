-- ===== src/HandlespaceNode/LinkOrders.antt =====
-- The storages of the handlespace sort strictly.
use rsplib.Base.{
  ◌≡◌, ap, ap₂, arith, Ordering, eq, IsLawful, ℤ, pos, negsuc, compare, compare_int,
  compare_int-IsLawful,
}
use rsplib.PoolHandle.Order.{comparison-IsLawful}
use rsplib.PoolNode.Adding.{compare-IsLawful}
use rsplib.HandlespaceNode.Links.{Connection, compare_connections, link_comparison}

pub compare_connections-IsLawful : IsLawful compare_connections
unfolding compare_connections
compare_connections-IsLawful =
    let laws = compare_int-IsLawful in
    record {
      chains = λ a b c p q.
          let r = laws.chains a.socket_descriptor b.socket_descriptor c.socket_descriptor in
          let s = laws.same_place in ground arith;
      flips_up =
          λ a b p. let r = laws.flips_up a.socket_descriptor b.socket_descriptor in ground arith;
      flips_down =
          λ a b p. let r = laws.flips_down a.socket_descriptor b.socket_descriptor in ground arith;
      same_place = λ a b c p q.
          let r = laws.same_place a.socket_descriptor b.socket_descriptor c.socket_descriptor in
          ground arith;
      same_key = λ a. let r = laws.same_key a.socket_descriptor in ground arith;
    }

module _ {K : Type 0} (cmp : K → K → Ordering) (lawful : IsLawful cmp)
    (same : (a b : K) → cmp a b ≡ eq → a ≡ b) where
  pub link_comparison-IsLawful : IsLawful (link_comparison cmp)
  unfolding link_comparison
  link_comparison-IsLawful =
      let laws = comparison-IsLawful.0 in
      record {
        chains = λ a b c p q.
            let r = laws.chains a.handle b.handle c.handle in
            let s = lawful.chains a.key b.key c.key in
            let t = same a.key b.key in
            let u = same b.key c.key in let v = lawful.same_key a.key in ground arith;
        flips_up = λ a b p.
            let r = laws.flips_up a.handle b.handle in
            let s = lawful.flips_up a.key b.key in
            let t = same a.key b.key in let v = lawful.same_key a.key in ground arith;
        flips_down = λ a b p.
            let r = laws.flips_down a.handle b.handle in
            let s = lawful.flips_down a.key b.key in
            let t = same a.key b.key in let v = lawful.same_key a.key in ground arith;
        same_place = λ a b c p q.
            let r = laws.same_place a.handle b.handle c.handle in
            let s = lawful.same_place a.key b.key c.key in
            let t = same a.key b.key in
            let u = same c.key b.key in let v = lawful.same_key a.key in ground arith;
        same_key =
            λ a. let r = laws.same_key a.handle in let s = lawful.same_key a.key in ground arith;
      }

pub compare_int-eq : (x y : ℤ) → compare_int x y ≡ eq → x ≡ y
compare_int-eq (pos a) (pos b) h = let q : a ≡ b = ground arith in ap pos q
compare_int-eq (pos a) (negsuc b) h = cc
compare_int-eq (negsuc a) (pos b) h = cc
compare_int-eq (negsuc a) (negsuc b) h = let q : a ≡ b = ground arith in ap negsuc q

compare_connections-eq : (a b : Connection) → compare_connections a b ≡ eq → a ≡ b
unfolding compare_connections
compare_connections-eq a b h =
    let r = compare_int-eq a.socket_descriptor b.socket_descriptor in
    let p : a.socket_descriptor ≡ b.socket_descriptor = ground arith in
    let q : a.assoc_id ≡ b.assoc_id = ground arith in
    ap₂ (λ s i. record { socket_descriptor = s; assoc_id = i }) p q

-- The timer, the ownership and the connection storage sort strictly.
pub number_links-IsLawful : IsLawful (link_comparison compare)
number_links-IsLawful = link_comparison-IsLawful compare compare-IsLawful (λ a b h. ground arith)

pub connection_links-IsLawful : IsLawful (link_comparison compare_connections)
connection_links-IsLawful =
    link_comparison-IsLawful compare_connections compare_connections-IsLawful compare_connections-eq
