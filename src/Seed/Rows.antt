-- ===== src/Seed/Rows.antt =====
-- The rows that cmd/seed/main.go inserts.
use backend_assessment.Prelude.{String, List, [], ◌∷◌}

pub record OrganizationRow : Type 0 where
  pub id : String
  pub name : String
  pub settings : String

pub record UserRow : Type 0 where
  pub id : String
  pub email : String
  pub organization_id : String
  pub role : String

pub record SiteRow : Type 0 where
  pub id : String
  pub name : String
  pub organization_id : String
  pub location : String

pub record GatewayRow : Type 0 where
  pub id : String
  pub serial : String
  pub organization_id : String
  pub site_id : String
  pub name : String
  pub health_status : String
  pub version : String
  pub ip_address : String
  pub location : String

abbrev pub organizations : List OrganizationRow
organizations =
    record {
      id = "00000000-0000-0000-0000-000000000001";
      name = "Acme Corporation";
      settings = "{\"plan\": \"enterprise\"}";
    }
    ∷ record {
      id = "00000000-0000-0000-0000-000000000002";
      name = "TechStart Inc";
      settings = "{\"plan\": \"professional\"}";
    }
    ∷ record {
      id = "00000000-0000-0000-0000-000000000003";
      name = "Global Industries";
      settings = "{\"plan\": \"enterprise\"}";
    }
    ∷ []

abbrev pub users : List UserRow
users =
    record {
      id = "10000000-0000-0000-0000-000000000001";
      email = "admin@acme.com";
      organization_id = "00000000-0000-0000-0000-000000000001";
      role = "admin";
    }
    ∷ record {
      id = "10000000-0000-0000-0000-000000000002";
      email = "user@acme.com";
      organization_id = "00000000-0000-0000-0000-000000000001";
      role = "user";
    }
    ∷ record {
      id = "10000000-0000-0000-0000-000000000003";
      email = "admin@techstart.com";
      organization_id = "00000000-0000-0000-0000-000000000002";
      role = "admin";
    }
    ∷ record {
      id = "10000000-0000-0000-0000-000000000004";
      email = "admin@global.com";
      organization_id = "00000000-0000-0000-0000-000000000003";
      role = "admin";
    }
    ∷ []

abbrev pub sites : List SiteRow
sites =
    record {
      id = "20000000-0000-0000-0000-000000000001";
      name = "Headquarters";
      organization_id = "00000000-0000-0000-0000-000000000001";
      location = "San Francisco, CA";
    }
    ∷ record {
      id = "20000000-0000-0000-0000-000000000002";
      name = "Manufacturing Plant";
      organization_id = "00000000-0000-0000-0000-000000000001";
      location = "Austin, TX";
    }
    ∷ record {
      id = "20000000-0000-0000-0000-000000000003";
      name = "Distribution Center";
      organization_id = "00000000-0000-0000-0000-000000000001";
      location = "Chicago, IL";
    }
    ∷ record {
      id = "20000000-0000-0000-0000-000000000004";
      name = "Office";
      organization_id = "00000000-0000-0000-0000-000000000002";
      location = "Seattle, WA";
    }
    ∷ record {
      id = "20000000-0000-0000-0000-000000000005";
      name = "Warehouse";
      organization_id = "00000000-0000-0000-0000-000000000003";
      location = "New York, NY";
    }
    ∷ []

abbrev pub gateways : List GatewayRow
gateways =
    record {
      id = "30000000-0000-0000-0000-000000000001";
      serial = "GW-HQ-001";
      organization_id = "00000000-0000-0000-0000-000000000001";
      site_id = "20000000-0000-0000-0000-000000000001";
      name = "HQ Gateway 1";
      health_status = "healthy";
      version = "2.1.0";
      ip_address = "192.168.1.10";
      location = "Building A, Floor 1";
    }
    ∷ record {
      id = "30000000-0000-0000-0000-000000000002";
      serial = "GW-HQ-002";
      organization_id = "00000000-0000-0000-0000-000000000001";
      site_id = "20000000-0000-0000-0000-000000000001";
      name = "HQ Gateway 2";
      health_status = "healthy";
      version = "2.1.0";
      ip_address = "192.168.1.11";
      location = "Building A, Floor 2";
    }
    ∷ record {
      id = "30000000-0000-0000-0000-000000000003";
      serial = "GW-MFG-001";
      organization_id = "00000000-0000-0000-0000-000000000001";
      site_id = "20000000-0000-0000-0000-000000000002";
      name = "Manufacturing Gateway 1";
      health_status = "warning";
      version = "2.0.5";
      ip_address = "192.168.2.10";
      location = "Production Line 1";
    }
    ∷ record {
      id = "30000000-0000-0000-0000-000000000004";
      serial = "GW-MFG-002";
      organization_id = "00000000-0000-0000-0000-000000000001";
      site_id = "20000000-0000-0000-0000-000000000002";
      name = "Manufacturing Gateway 2";
      health_status = "healthy";
      version = "2.1.0";
      ip_address = "192.168.2.11";
      location = "Production Line 2";
    }
    ∷ record {
      id = "30000000-0000-0000-0000-000000000005";
      serial = "GW-DC-001";
      organization_id = "00000000-0000-0000-0000-000000000001";
      site_id = "20000000-0000-0000-0000-000000000003";
      name = "Distribution Gateway 1";
      health_status = "critical";
      version = "1.9.2";
      ip_address = "192.168.3.10";
      location = "Warehouse Section A";
    }
    ∷ record {
      id = "30000000-0000-0000-0000-000000000006";
      serial = "GW-TS-001";
      organization_id = "00000000-0000-0000-0000-000000000002";
      site_id = "20000000-0000-0000-0000-000000000004";
      name = "TechStart Gateway 1";
      health_status = "healthy";
      version = "2.1.0";
      ip_address = "192.168.4.10";
      location = "Office Floor 3";
    }
    ∷ record {
      id = "30000000-0000-0000-0000-000000000007";
      serial = "GW-GI-001";
      organization_id = "00000000-0000-0000-0000-000000000003";
      site_id = "20000000-0000-0000-0000-000000000005";
      name = "Global Gateway 1";
      health_status = "offline";
      version = "2.0.0";
      ip_address = "192.168.5.10";
      location = "Warehouse Zone 1";
    }
    ∷ []
