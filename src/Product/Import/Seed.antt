-- ===== src/Product/Import/Seed.antt =====
-- The products that backend/domains/product/repository.py (_load_seed_products) ships with.
use project_main.Prelude.{none, some, List, [], ◌∷◌}
use project_main.Product.Import.{RawProduct}

-- `_load_seed_products`
abbrev pub load_seed_products : List RawProduct
load_seed_products =
    record {
      product_code = "BMW-IX3-NCM811-108";
      product_name = some "BMW iX3 Cylindrical NCM811 108Ah";
      type = some "battery_pack";
      specs = none;
      external_id = some "ERP-PROD-IX3";
      manufacturer_id = none;
      customer_code = some "BMW";
      customer_name = some "BMW AG";
      customer_country = some "DE";
      customer_external_id = some "ERP-CUST-BMW";
      model_name = some "iX3 50";
      amperage_ah = some 10800;
    }
    ∷ record {
      product_code = "BMW-I4-NCM-81";
      product_name = some "BMW i4 Prismatic NCM 81Ah";
      type = some "battery_pack";
      specs = none;
      external_id = some "ERP-PROD-I4";
      manufacturer_id = none;
      customer_code = some "BMW";
      customer_name = some "BMW AG";
      customer_country = some "DE";
      customer_external_id = some "ERP-CUST-BMW";
      model_name = some "i4";
      amperage_ah = some 8100;
    }
    ∷ record {
      product_code = "MB-GLC-NCM-94";
      product_name = some "Mercedes GLC EV Prismatic NCM 94Ah";
      type = some "battery_pack";
      specs = none;
      external_id = some "ERP-PROD-GLC";
      manufacturer_id = none;
      customer_code = some "MERCEDES";
      customer_name = some "Mercedes-Benz Group AG";
      customer_country = some "DE";
      customer_external_id = some "ERP-CUST-MB";
      model_name = some "GLC EV";
      amperage_ah = some 9400;
    }
    ∷ record {
      product_code = "MB-EQS-NCM-118";
      product_name = some "Mercedes EQS Prismatic NCM 118Ah";
      type = some "battery_pack";
      specs = none;
      external_id = some "ERP-PROD-EQS";
      manufacturer_id = none;
      customer_code = some "MERCEDES";
      customer_name = some "Mercedes-Benz Group AG";
      customer_country = some "DE";
      customer_external_id = some "ERP-CUST-MB";
      model_name = some "EQS";
      amperage_ah = some 11800;
    }
    ∷ []
