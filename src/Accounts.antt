-- ===== src/Accounts.antt =====
-- ki_radar/accounts/models.py and permissions.py: the user and the groups that grant a role.
use ki_use_case_radar.Common.{ℕ, Bool, true, false, ◌&&◌, ◌||◌, List, any}

-- GROUP_TECH_ADMIN, GROUP_COORDINATOR, GROUP_BUSINESS_OWNER and GROUP_READER
pub data Group : Type 0 where
  tech_admin coordinator business_owner reader : Group

-- The fields of a user that the permissions read. `groups` is the relation `user.groups`.
pub record User : Type 0 where
  pub id : ℕ
  pub is_authenticated : Bool
  pub is_active : Bool
  pub is_superuser : Bool
  pub is_anonymized : Bool
  pub groups : List Group

abbrev pub group_eq : Group → Group → Bool
group_eq tech_admin tech_admin = true
group_eq coordinator coordinator = true
group_eq business_owner business_owner = true
group_eq reader reader = true
group_eq _ _ = false

unfoldable pub in_group : User → Group → Bool
in_group user name = user.is_authenticated && any (group_eq name) user.groups

unfoldable pub is_technical_admin : User → Bool
unfolding in_group
is_technical_admin user = user.is_authenticated && (user.is_superuser || in_group user tech_admin)

unfoldable pub is_coordinator : User → Bool
unfolding is_technical_admin
is_coordinator user = is_technical_admin user || in_group user coordinator

unfoldable pub is_business_owner : User → Bool
unfolding is_coordinator
is_business_owner user = is_coordinator user || in_group user business_owner
