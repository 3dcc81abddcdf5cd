-- ===== src/Admin/Current.antt =====
-- The roles that internal/controlplane/admin.go reads from the read model against the org aggregate.
use inferbus.Base.{
  Bool-cases, List, Option, String, [], arith, false, if◌then◌else◌, inl, inr, none, refl, some,
  str_eq_iff, true, ◌==◌, ◌∷◌, ◌≡◌,
}
use inferbus.Base.{nat_eq, string_eq}
use inferbus.Dict.{Dict, lookup}
use inferbus.Text.{Text, codes}
use inferbus.Org as O
use inferbus.ReadModel.{
  MemReadStore, MemberRow, get_org, member_rows, members_of, put_in_order, sort_by, text_ltb,
}
use inferbus.ReadModel.Orgs.{RowsShow}
use inferbus.Admin.{
  Admin, Identity, authorize, authorize_org_role, is_healthy, members_at, role_among, verdict,
}

text_ltb_irrefl : (t : Text) → text_ltb t t ≡ false
unfolding text_ltb
text_ltb_irrefl [] = refl
text_ltb_irrefl (c ∷ t) = ground (arith, text_ltb_irrefl t)

abbrev sub_of : MemberRow → Text
sub_of m = codes m.sub

-- Sorting leaves the first row of each subject the first one.
role_among-put_in_order :
    (sub : String) (x : MemberRow) (ys : List MemberRow)
    → role_among sub (put_in_order sub_of x ys)
      ≡ (if x.sub == sub then x.role else role_among sub ys)
unfolding role_among put_in_order
role_among-put_in_order sub x [] = refl
role_among-put_in_order sub x (y ∷ ys) = ground (
  arith,
  role_among-put_in_order sub x ys,
  str_eq_iff x.sub sub,
  str_eq_iff y.sub sub,
  text_ltb_irrefl (codes x.sub),
)

abbrev pub role_or_none : Option String → String
role_or_none none = ""
role_or_none (some role) = role

pub role_among-member_rows :
    (sub : String) (m : Dict String String)
    → role_among sub (sort_by sub_of (member_rows m)) ≡ role_or_none (lookup sub m)
unfolding role_among sort_by member_rows lookup
role_among-member_rows sub [] = refl
role_among-member_rows sub ((k, role) ∷ m) = ground (
  arith,
  role_among-put_in_order sub (record { sub = k; role = role }) (sort_by sub_of (member_rows m)),
  role_among-member_rows sub m,
)

listed_members :
    (org : String) (o : O.Org) (old s : MemReadStore)
    → RowsShow org old o s
    → O.absent o ≡ false
    → members_at org s ≡ some (sort_by sub_of (member_rows (members_of org s)))
unfolding members_at get_org
listed_members org o old s shows there = ground (arith, shows.org_shown there)

-- If the read model shows an org, then with healthy projections each verdict is that of `Authorize`
-- for the role that the caller has in the aggregate, which is none for a subject that is no member.
pub authorize_org_role-current :
    (a : Admin) (id : Identity) (need org : String) (o : O.Org) (old s : MemReadStore)
    → RowsShow org old o s
    → O.absent o ≡ false
    → a.rows ≡ some s
    → is_healthy a ≡ true
    → authorize_org_role a id org need
      ≡ verdict (authorize id (role_or_none (lookup id.sub o.members)) need)
unfolding authorize_org_role authorize
authorize_org_role-current a id need org o old s shows there up well =
    elim (Bool-cases id.platform_admin) [
      | inl p ↦ ground (arith, p)
      | inr plain ↦ ground (
        arith,
        plain,
        well,
        up,
        listed_members org o old s shows there,
        role_among-member_rows id.sub (members_of org s),
        shows.members_shown id.sub,
      )
    ]
